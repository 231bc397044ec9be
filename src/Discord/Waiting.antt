-- ===== src/Discord/Waiting.antt =====
-- What `wait_for_response` of src/daemon/discord_ipc.h does to the messages.
use sigaw.Prelude.{
  ℕ, ◌≡◌, refl, sym, ◌∙◌, ap, subst, Bool, true, false, not, ◌≢◌, List, [], ◌∷◌, ◌++◌, Option, none,
  some, arith, ◌==◌, Bytes, keep_if, if_rule, Option_rule,
}
use mathlib.Core.List.{append_assoc, append-nil}
use sigaw.Json.Interface.{JsonLib, JsonText}
use sigaw.Discord.Frame.{close_op, ping_op, recv}
use sigaw.Discord.Inbox.{
  DiscordMessageInbox, capture_local_user, is_dispatch, answers, store, take_first,
  take_first-Split, Split, take_response, store_or_match,
}
use sigaw.Socket.Defs.{Socket}
use sigaw.Discord.Arrivals.{
  Arrives, nothing_more, broken_frame, ping, close, garbage, message, Arrives-append,
}
use sigaw.Discord.Wait.{
  WaitStatus, matched, timed_out, aborted, closed, PollResult, interrupted, failed, idle, readable,
  hang_up, hang_up_readable, Round, DiscordIpc, Outcome, again, done, hangs, stalled, lost, on_poll,
  on_message, on_frame, on_readable, is_over, wait_round, wait_loop, wait_for_response,
}

keep_if-append :
    {A : Type 0} (p : A → Bool) (xs ys : List A)
    → keep_if p (xs ++ ys) ≡ keep_if p xs ++ keep_if p ys
unfolding keep_if
keep_if-append p [] ys = refl
keep_if-append p (x ∷ xs) ys = ground (arith, keep_if-append p xs ys)

module _ (J : JsonLib) (T : JsonText J) where
  open J use {Json}

  -- The messages `got` have joined the inbox, each queue in the order of their arrival.
  pub record Grew (before after : DiscordMessageInbox J) (got : List Json) : Type 0 where
    pub dispatches : after.dispatches ≡ before.dispatches ++ keep_if (is_dispatch J) got
    pub responses : after.responses ≡ before.responses ++ keep_if (λ m. not (is_dispatch J m)) got

  -- The answer is a response to the request, and leaves the inbox; nothing else does.
  abbrev pub Taken :
      Bytes → Bytes → DiscordMessageInbox J → DiscordMessageInbox J → Option Json → Type 0
  Taken nonce cmd before after none = after ≡ before
  Taken nonce cmd before after (some m) =
      (front back : List Json) × (before.responses ≡ front ++ m ∷ back)
      × (after.responses ≡ front ++ back)
      × (answers J nonce cmd m ≡ true)
      × (after.dispatches ≡ before.dispatches)

  -- The messages that arrived are kept, but for the answer; and there is an answer exactly if the status
  -- is `Matched`.
  abbrev pub Kept : Bytes → Bytes → DiscordIpc J T → Outcome J T → Type 0
  Kept nonce cmd before (again ipc) =
      (got : List Json) × Arrives J T before.fd got ipc.fd × Grew before.inbox ipc.inbox got
  Kept nonce cmd before (hangs ipc) =
      (got : List Json) × Arrives J T before.fd got ipc.fd × Grew before.inbox ipc.inbox got
  Kept nonce cmd before (done status response ipc) =
      (got : List Json) × (mid : DiscordMessageInbox J) × Arrives J T before.fd got ipc.fd
      × Grew before.inbox mid got
      × Taken nonce cmd mid ipc.inbox response
      × ((status ≡ matched → (m : Json) × (response ≡ some m))
          × ((m : Json) → response ≡ some m → status ≡ matched))

  Grew-none : (inbox : DiscordMessageInbox J) → Grew inbox inbox []
  unfolding keep_if
  Grew-none inbox = record {
    dispatches = sym (append-nil inbox.dispatches);
    responses = sym (append-nil inbox.responses);
  }

  Grew-trans :
      (a b c : DiscordMessageInbox J) (xs ys : List Json)
      → Grew a b xs
      → Grew b c ys
      → Grew a c (xs ++ ys)
  Grew-trans a b c xs ys g h = record {
    dispatches =
        h.dispatches
        ∙ ap (λ l. l ++ keep_if (is_dispatch J) ys) g.dispatches
        ∙ append_assoc a.dispatches _ _
        ∙ ap (λ l. a.dispatches ++ l) (sym (keep_if-append (is_dispatch J) xs ys));
    responses =
        h.responses
        ∙ ap (λ l. l ++ keep_if (λ m. not (is_dispatch J m)) ys) g.responses
        ∙ append_assoc a.responses _ _
        ∙ ap (λ l. a.responses ++ l) (sym (keep_if-append (λ m. not (is_dispatch J m)) xs ys));
  }

  capture-queues :
      (m : Json) (inbox : DiscordMessageInbox J)
      → ((capture_local_user J m inbox).dispatches ≡ inbox.dispatches)
        × ((capture_local_user J m inbox).responses ≡ inbox.responses)
  unfolding capture_local_user
  capture-queues m inbox = ground arith

  store-Grew : (m : Json) (inbox : DiscordMessageInbox J) → Grew inbox (store J m inbox) (m ∷ [])
  unfolding store keep_if
  store-Grew m inbox =
      let (d, r) = capture-queues m inbox in
      record {
        dispatches = ground (arith, d, append-nil inbox.dispatches);
        responses = ground (arith, r, append-nil inbox.responses);
      }

  take_response-Taken :
      (nonce cmd : Bytes) (inbox : DiscordMessageInbox J)
      → let (found, after) = take_response J nonce cmd inbox in Taken nonce cmd inbox after found
  unfolding take_response
  take_response-Taken nonce cmd inbox =
      Option_rule (λ (o : Option Json × DiscordMessageInbox J). Taken nonce cmd inbox o.1 o.0)
        (take_first (answers J nonce cmd) inbox.responses) _ _ (λ _. refl)
        (λ (m, rest) e.
          let (front, back, at, left, passes, fail) =
            subst (Split (answers J nonce cmd) inbox.responses) e
              (take_first-Split (answers J nonce cmd) inbox.responses) in
          (front, back, at, left, passes, refl))

  unanswered :
      (nonce cmd : Bytes) (status : WaitStatus) (start ipc : DiscordIpc J T)
      → status ≢ matched
      → ipc.inbox ≡ start.inbox
      → Arrives J T start.fd [] ipc.fd
      → Kept nonce cmd start (done status none ipc)
  unanswered nonce cmd status start ipc ne same a = (
    [],
    start.inbox,
    a,
    Grew-none start.inbox,
    same,
    (λ e. absurd (ne e), λ m e. absurd (ground (arith, e))),
  )

  lost-Kept :
      (nonce cmd : Bytes) (start ipc : DiscordIpc J T)
      → ipc.inbox ≡ start.inbox
      → Arrives J T start.fd [] ipc.fd
      → Kept nonce cmd start (lost J T ipc)
  lost-Kept nonce cmd start ipc same a =
      unanswered nonce cmd closed start (record ipc { connected = false }) (λ e. cc) same a

  on_message-Kept :
      (nonce cmd : Bytes) (m : Json) (ipc : DiscordIpc J T) (fd : Option Socket)
      → Arrives J T ipc.fd (m ∷ []) fd
      → Kept nonce cmd ipc (on_message J T nonce cmd m (record ipc { fd = fd }))
  unfolding on_message store_or_match
  on_message-Kept nonce cmd m ipc fd a =
      let mid = store J m ipc.inbox in
      let (found, after) = take_response J nonce cmd mid in
      let taken = take_response-Taken nonce cmd mid in
      Option_rule (Kept nonce cmd ipc) found _ _
        (λ e. (
          m ∷ [],
          a,
          subst (λ i. Grew ipc.inbox i (m ∷ []))
              (sym (subst (λ o. Taken nonce cmd mid after o) e taken)) (store-Grew m ipc.inbox),
        ))
        (λ answer e. (
          m ∷ [],
          mid,
          a,
          store-Grew m ipc.inbox,
          subst (λ o. Taken nonce cmd mid after o) e taken,
          (λ _. (answer, refl), λ _ _. refl),
        ))

  on_frame-Kept :
      (nonce cmd : Bytes) (op : ℕ) (payload : Bytes) (ipc : DiscordIpc J T) (fd : Option Socket)
      → recv ipc.fd ≡ (some (op, payload), fd)
      → Kept nonce cmd ipc (on_frame J T nonce cmd op payload (record ipc { fd = fd }))
  unfolding on_frame
  on_frame-Kept nonce cmd op payload ipc fd read =
      let P = Kept nonce cmd ipc in
      if_rule P (op == ping_op) _ _
        (λ e. ([], ping op payload read e nothing_more, Grew-none ipc.inbox))
        (λ no_ping.
          if_rule P (op == close_op) _ _
            (λ e.
              lost-Kept nonce cmd ipc (record ipc { fd = fd }) refl
                (close op payload read e nothing_more))
            (λ no_close.
              Option_rule P (T.parse payload) _ _
                (λ e. (
                  [],
                  garbage op payload read no_ping no_close e nothing_more,
                  Grew-none ipc.inbox,
                ))
                (λ m e.
                  on_message-Kept nonce cmd m ipc fd
                    (message op payload m read no_ping no_close e nothing_more))))

  on_readable-Kept :
      (nonce cmd : Bytes) (ipc : DiscordIpc J T)
      → Kept nonce cmd ipc (on_readable J T nonce cmd ipc)
  unfolding on_readable
  on_readable-Kept nonce cmd ipc =
      let (got, fd) = recv ipc.fd in
      Option_rule (Kept nonce cmd ipc) got _ _
        (λ e.
          lost-Kept nonce cmd ipc (record ipc { fd = fd }) refl
            (broken_frame (λ i. (e i, fd)) nothing_more))
        (λ (op, payload) e. on_frame-Kept nonce cmd op payload ipc fd (λ i. (e i, fd)))

  on_poll-Kept :
      (nonce cmd : Bytes) (p : PollResult) (ipc : DiscordIpc J T)
      → Kept nonce cmd ipc (on_poll J T nonce cmd p ipc)
  unfolding on_poll
  on_poll-Kept nonce cmd interrupted ipc = ([], nothing_more, Grew-none ipc.inbox)
  on_poll-Kept nonce cmd failed ipc = lost-Kept nonce cmd ipc ipc refl nothing_more
  on_poll-Kept nonce cmd idle ipc = ([], nothing_more, Grew-none ipc.inbox)
  on_poll-Kept nonce cmd hang_up ipc = lost-Kept nonce cmd ipc ipc refl nothing_more
  on_poll-Kept nonce cmd hang_up_readable ipc = lost-Kept nonce cmd ipc ipc refl nothing_more
  on_poll-Kept nonce cmd stalled ipc = ([], nothing_more, Grew-none ipc.inbox)
  on_poll-Kept nonce cmd readable ipc = on_readable-Kept nonce cmd ipc

  wait_round-Kept :
      (nonce cmd : Bytes) (deadline : Option ℕ) (r : Round) (ipc : DiscordIpc J T)
      → Kept nonce cmd ipc (wait_round J T nonce cmd deadline r ipc)
  unfolding wait_round
  wait_round-Kept nonce cmd deadline r ipc =
      if_rule (Kept nonce cmd ipc) (not r.pump) _ _
        (λ _. unanswered nonce cmd aborted ipc ipc (λ e. cc) refl nothing_more)
        (λ _.
          if_rule (Kept nonce cmd ipc) (is_over J T deadline r.now) _ _
            (λ _. unanswered nonce cmd timed_out ipc ipc (λ e. cc) refl nothing_more)
            (λ _. on_poll-Kept nonce cmd r.poll ipc))

  -- What comes behind messages that were kept.
  Kept-after :
      (nonce cmd : Bytes) (a b : DiscordIpc J T) (got : List Json) (o : Outcome J T)
      → Arrives J T a.fd got b.fd
      → Grew a.inbox b.inbox got
      → Kept nonce cmd b o
      → Kept nonce cmd a o
  Kept-after nonce cmd a b got (again ipc) r g (more, q, h) =
      (got ++ more, Arrives-append J T r q, Grew-trans a.inbox b.inbox ipc.inbox got more g h)
  Kept-after nonce cmd a b got (hangs ipc) r g (more, q, h) =
      (got ++ more, Arrives-append J T r q, Grew-trans a.inbox b.inbox ipc.inbox got more g h)
  Kept-after nonce cmd a b got (done status response ipc) r g (more, mid, q, h, taken, answer) = (
    got ++ more,
    mid,
    Arrives-append J T r q,
    Grew-trans a.inbox b.inbox mid got more g h,
    taken,
    answer,
  )

  -- A rule for the cases of an outcome.
  pub Outcome_rule :
      {B : Type 0} (P : B → Type 0) (o : Outcome J T) (f : DiscordIpc J T → B)
      → (g : WaitStatus → Option Json → DiscordIpc J T → B) → (k : DiscordIpc J T → B)
      → ((next : DiscordIpc J T) → o ≡ again next → P (f next))
      → ((status : WaitStatus) (response : Option Json) (last : DiscordIpc J T)
          → o ≡ done status response last
          → P (g status response last))
      → ((last : DiscordIpc J T) → o ≡ hangs last → P (k last))
      → P (elim o [
        | again next ↦ f next
        | done status response last ↦ g status response last
        | hangs last ↦ k last
      ])
  Outcome_rule P (again next) f g k h i j = h next refl
  Outcome_rule P (done status response last) f g k h i j = i status response last refl
  Outcome_rule P (hangs last) f g k h i j = j last refl

  wait_loop-Kept :
      (rounds : List Round) (nonce cmd : Bytes) (deadline : Option ℕ) (ipc : DiscordIpc J T)
      → Kept nonce cmd ipc (wait_loop J T rounds nonce cmd deadline ipc).0
  unfolding wait_loop
  wait_loop-Kept [] nonce cmd deadline ipc =
      Option_rule (λ (o : Outcome J T × List Round). Kept nonce cmd ipc o.0) ipc.fd _ _
        (λ _. unanswered nonce cmd closed ipc ipc (λ e. cc) refl nothing_more)
        (λ s _. ([], nothing_more, Grew-none ipc.inbox))
  wait_loop-Kept (r ∷ rounds) nonce cmd deadline ipc =
      let kept = wait_round-Kept nonce cmd deadline r ipc in
      let P = λ (o : Outcome J T × List Round). Kept nonce cmd ipc o.0 in
      Option_rule P ipc.fd _ _
        (λ _. unanswered nonce cmd closed ipc ipc (λ e. cc) refl nothing_more)
        (λ s _.
          Outcome_rule P (wait_round J T nonce cmd deadline r ipc) _ _ _
            (λ next e.
              let (got, a, g) = subst (Kept nonce cmd ipc) e kept in
              Kept-after nonce cmd ipc next got _ a g
                (wait_loop-Kept rounds nonce cmd deadline next))
            (λ status response last e. subst (Kept nonce cmd ipc) e kept)
            (λ last e. subst (Kept nonce cmd ipc) e kept))

  -- However the rounds go: the messages that arrive are those of the frames that `recv` returns from the
  -- state of the socket before to the state after, less pings, a close, and what does not parse. Every one
  -- of them is kept, dispatches and responses each behind those that were there, in the order of arrival, but
  -- for the answer to the request. That one has the request's nonce and command, leaves the responses, and
  -- there is one exactly if the status is `Matched`.
  pub wait_for_response-Kept :
      (rounds : List Round) (nonce cmd : Bytes) (deadline : Option ℕ) (ipc : DiscordIpc J T)
      → Kept nonce cmd ipc (wait_for_response J T rounds nonce cmd deadline ipc).0
  unfolding wait_for_response
  wait_for_response-Kept rounds nonce cmd deadline ipc =
      let (found, inbox) = take_response J nonce cmd ipc.inbox in
      Option_rule (λ (o : Outcome J T × List Round). Kept nonce cmd ipc o.0) found _ _
        (λ _. wait_loop-Kept rounds nonce cmd deadline ipc)
        (λ m e. (
          [],
          ipc.inbox,
          nothing_more,
          Grew-none ipc.inbox,
          subst (λ o. Taken nonce cmd ipc.inbox inbox o) e
              (take_response-Taken nonce cmd ipc.inbox),
          (λ _. (m, refl), λ _ _. refl),
        ))
