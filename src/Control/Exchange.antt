-- ===== src/Control/Exchange.antt =====
-- What `sigaw-ctl` learns of a request is what the daemon did.
use sigaw.Prelude.{
  ℕ, ◌^◌, ◌<◌, ◌≤◌, ◌≡◌, refl, sym, ◌∙◌, ap, subst, ◌↔◌, Bool, true, not, ◌&&◌, ◌||◌, [], ◌∷◌, ◌++◌,
  some, arith, ◌==◌, if◌then◌else◌, Bytes, lit, length, take, if_rule,
}
use sigaw.Protocol.{
  SigawCtlResponse, sigaw_ctl_status, sigaw_ctl_toggle, sigaw_ctl_reload, sigaw_ctl_quit,
}
use sigaw.Shm.Strings.{strncpy_terminated, length-strncpy_terminated}
use sigaw.Socket.Defs.{Socket, read_all, write_all}
use sigaw.Socket.Transfer.{Live, read_all-take, write_all-prefix}
use sigaw.Socket.Words.{u32_bytes}
use sigaw.Config.Types.{FloatLib, Config}
use sigaw.Config.Store.{save, load}
use sigaw.Control.Wire.{
  request_bytes, response_bytes, request_command-request_bytes, response_of-response_bytes,
  length-request_bytes,
}
use sigaw.Control.Server.{
  Action, refresh, reload, quit, send_response, Settings, Handled, toggle, on_command, on_request,
  handle_client,
}
use sigaw.Control.Client.{on_response, send_ctl_request}

-- The bytes of a response that is sent.
abbrev pub reply : ℕ → ℕ → Bytes → Bytes
reply command status message =
    response_bytes
      (record { command = command; status = status; message = strncpy_terminated 255 message })

length-reply : (command status : ℕ) (message : Bytes) → length (reply command status message) ≡ 264
unfolding response_bytes u32_bytes
length-reply command status message = omega (arith, length-strncpy_terminated 255 message)

take_all : (xs : Bytes) → take (length xs) xs ≡ xs
take_all [] = refl
take_all (x ∷ xs) = ap (◌∷◌ x) (take_all xs)

-- With room for it the whole response is sent.
send_response-sent :
    (command status : ℕ) (message : Bytes) (s : Socket)
    → s.outgoing ≡ []
    → Live s.writes
    → 264 ≤ length s.writes
    → (send_response command status message s).outgoing ≡ reply command status message
unfolding send_response
send_response-sent command status message s fresh live room =
    let (sent, rest, e, out, all, full) = write_all-prefix (reply command status message) s in
    out
    ∙ ap (λ o. o ++ sent) fresh
    ∙ all (full live (omega (arith, length-reply command status message)))

-- Each direction leaves the other alone.
write_all-reads :
    (buf : Bytes) (s : Socket)
    → ((write_all buf s).1.incoming ≡ s.incoming) × ((write_all buf s).1.reads ≡ s.reads)
unfolding write_all
write_all-reads buf s = (refl, refl)

read_all-writes :
    (n : ℕ) (s : Socket)
    → ((read_all n s).1.outgoing ≡ s.outgoing) × ((read_all n s).1.writes ≡ s.writes)
unfolding read_all
read_all-writes n s = (refl, refl)

-- The client's exit code, from a response with which the connection ends.
send_ctl_request-code :
    (command status : ℕ) (message : Bytes) (fd : Socket)
    → command < 2 ^ 32
    → status < 2 ^ 32
    → fd.incoming ≡ reply command status message
    → Live fd.reads
    → 264 ≤ length fd.reads
    → Live fd.writes
    → 8 ≤ length fd.writes
    → (send_ctl_request command (some fd)).0.0 ≡ (if status == 0 then 0 else 1)
unfolding send_ctl_request on_response
send_ctl_request-code command status message fd small small' there reads enough writes room =
    let (front, back, e1, e2, all, full) = write_all-prefix (request_bytes command) fd in
    let done = full writes (omega (arith, length-request_bytes command)) in
    let sent : SigawCtlResponse = record {
      command = command;
      status = status;
      message = strncpy_terminated 255 message;
    } in
    let waiting = (write_all (request_bytes command) fd).1 in
    let (same, granted) = write_all-reads (request_bytes command) fd in
    let arrived : waiting.incoming ≡ reply command status message = same ∙ there in
    let size : length waiting.incoming ≡ 264 =
      ap length arrived ∙ length-reply command status message in
    let (t, e, left, more, used, out) =
      read_all-take 264 waiting (subst Live (sym granted) reads)
        (subst (λ r. 264 ≤ length r) (sym granted) enough) (omega (arith, size)) in
    let bytes : take 264 waiting.incoming ≡ reply command status message =
      subst (λ n. take n waiting.incoming ≡ reply command status message) size
        (take_all waiting.incoming ∙ arrived) in
    rw (done, e, bytes, response_of-response_bytes sent small small') refl

exit_code :
    (b : Bool) (status : ℕ)
    → status ≡ (if b then 0 else 1)
    → (status < 2 ^ 32) × (◌≡◌ {A = ℕ} (if status == 0 then 0 else 1) (if b then 0 else 1))
exit_code b status e = ground (arith, e)

-- Calls of `read` and `write` that each get a byte at least, and enough of them for this many bytes.
pub record Ready (s : Socket) (in_bytes out_bytes : ℕ) : Type 0 where
  pub reads : Live s.reads
  pub enough : in_bytes ≤ length s.reads
  pub writes : Live s.writes
  pub room : out_bytes ≤ length s.writes

module _ (FL : FloatLib) where
  abbrev flipped : Config FL → Config FL
  flipped config = record config { visible = not config.visible }

  -- The commands that are carried out: the four that there are, and the toggle only if it could be saved.
  unfoldable pub accepted : ℕ → Settings FL → Bool
  accepted command (config, disk) =
      (command == sigaw_ctl_status || command == sigaw_ctl_reload || command == sigaw_ctl_quit)
      || (command == sigaw_ctl_toggle && (save FL (flipped config) disk).0)

  -- What the daemon makes of a command.
  pub record Done (command : ℕ) (settings : Settings FL) (action : Action) (after : Settings FL)
      : Type 0 where
    pub quits : (action ≡ quit) ↔ (command ≡ sigaw_ctl_quit)
    pub reloads : (action ≡ reload) ↔ (command ≡ sigaw_ctl_reload)
    pub refreshes :
        (action ≡ refresh) ↔ ((command ≡ sigaw_ctl_toggle) × (accepted command settings ≡ true))
    pub config : after.0 ≡ (
        if command == sigaw_ctl_toggle
        then flipped settings.0
        else if command == sigaw_ctl_reload
        then load FL settings.1
        else settings.0)
    pub disk : after.1 ≡ (
        if command == sigaw_ctl_toggle
        then (save FL (flipped settings.0) settings.1).1
        else settings.1)

  on_command-Done :
      (command : ℕ) (s : Socket) (settings : Settings FL)
      → let (action, served, after) = on_command FL command s settings in
        Done command settings action after
  unfolding on_command toggle accepted
  on_command-Done command s settings = record {
    quits = ground arith;
    reloads = ground arith;
    refreshes = ground arith;
    config = ground arith;
    disk = ground arith;
  }

  -- The socket on which a response was sent, with status 0 exactly if the command is carried out.
  abbrev Replied : ℕ → Settings FL → Socket → Socket → Type 0
  Replied command settings s served =
      (status : ℕ) × (message : Bytes) × (served ≡ send_response command status message s)
      × (status ≡ (if accepted command settings then 0 else 1))

  on_command-Replied :
      (command : ℕ) (s : Socket) (settings : Settings FL)
      → Replied command settings s (on_command FL command s settings).1
  unfolding on_command toggle accepted
  on_command-Replied command s (config, disk) =
      let P = λ (h : Handled FL). Replied command (config, disk) s h.1 in
      if_rule P (command == sigaw_ctl_status) _ _ (λ status. (0, lit "ok", refl, ground arith))
        (λ no_status.
          if_rule P (command == sigaw_ctl_toggle) _ _
            (λ flip.
              if_rule P (not (save FL (flipped config) disk).0) _ _
                (λ failed. (1, lit "failed to persist config", refl, ground arith))
                (λ saved. (0, _, refl, ground arith)))
            (λ no_flip.
              if_rule P (command == sigaw_ctl_reload) _ _
                (λ reloaded. (0, lit "configuration reloaded", refl, ground arith))
                (λ no_reload.
                  if_rule P (command == sigaw_ctl_quit) _ _
                    (λ stopped. (0, lit "daemon stopping", refl, ground arith))
                    (λ unknown. (1, lit "unknown command", refl, ground arith)))))

  -- The request as it is read.
  handle_client-read :
      (command : ℕ) (client : Socket) (settings : Settings FL)
      → command < 2 ^ 32
      → client.incoming ≡ request_bytes command
      → Live client.reads
      → 8 ≤ length client.reads
      → handle_client FL client settings ≡ on_command FL command (read_all 8 client).1 settings
  unfolding handle_client on_request
  handle_client-read command client settings small there live enough =
      let size : length client.incoming ≡ 8 = ap length there ∙ length-request_bytes command in
      let (t, e, left, more, used, out) =
        read_all-take 8 client live enough (omega (arith, size)) in
      let bytes : take 8 client.incoming ≡ request_bytes command =
        subst (λ n. take n client.incoming ≡ request_bytes command) size
          (take_all client.incoming ∙ there) in
      rw (e, bytes, request_command-request_bytes command small) refl

  -- For a request that arrives whole, over sockets on which every call of `read` and `write` gets a byte at
  -- least and there are as many calls as bytes: the exit code of `sigaw-ctl` is 0 if the command is one of
  -- the four and, for the toggle, the configuration could be saved, and else 1; the daemon quits, reloads or
  -- refreshes exactly for the command of that name, refreshing only if it could save; the configuration in
  -- memory is toggled for the toggle, whether or not it could be saved, loaded from the file for the reload,
  -- and else kept; and only the toggle writes the file.
  pub send_ctl_request-handle_client :
      (command : ℕ) (client fd : Socket) (settings : Settings FL)
      → command < 2 ^ 32
      → client.incoming ≡ request_bytes command
      → client.outgoing ≡ []
      → Ready client 8 264
      → Ready fd 264 8
      → let (action, served, after) = handle_client FL client settings in
        fd.incoming ≡ served.outgoing
        → ((send_ctl_request command (some fd)).0.0 ≡ (if accepted command settings then 0 else 1))
          × Done command settings action after
  send_ctl_request-handle_client command client fd settings small there fresh ready ready' =
      let accepted_now = accepted command settings in
      let read = (read_all 8 client).1 in
      let (sent, granted) = read_all-writes 8 client in
      let (status, message, served, code) = on_command-Replied command read settings in
      let out : (on_command FL command read settings).1.outgoing ≡ reply command status message =
        ap (λ s. s.outgoing) served
        ∙ send_response-sent command status message read (sent ∙ fresh)
            (subst Live (sym granted) ready.writes)
            (subst (λ w. 264 ≤ length w) (sym granted) ready.room) in
      subst
        (λ (h : Handled FL).
          fd.incoming ≡ h.1.outgoing
          → ((send_ctl_request command (some fd)).0.0
              ≡ (if accepted command settings then 0 else 1))
            × Done command settings h.0 h.2)
        (sym (handle_client-read command client settings small there ready.reads ready.enough))
        (λ arrived. (
          send_ctl_request-code command status message fd small
                (exit_code accepted_now status code).0 (arrived ∙ out) ready'.reads ready'.enough
                ready'.writes ready'.room
              ∙ (exit_code accepted_now status code).1,
          on_command-Done command read settings,
        ))
