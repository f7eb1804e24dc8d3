-- ===== src/GraphQl/WebSocket/Forwarding.antt =====
-- Which messages of a client reach the backend.
use api_firewall.Base.{
  append_nil, append_assoc, ℕ, ◌≡◌, ◌≢◌, refl, sym, ap, ◌∙◌, inl, inr, Bool, true, false, Option,
  none, some, List, [], ◌∷◌, ◌++◌, map, Str, equal_fold, replicate, All, Bool-cases,
}
use api_firewall.Web.{validation_block, validation_log}
use api_firewall.GraphQl.{Stop, invalid, failed, crashed}
use api_firewall.GraphQl.Handling.{GraphQlMode}
use api_firewall.GraphQl.WebSocket.{
  Frame, GqlMessage, Activity, reading, Proxying, message, write_backend, is_passed_over,
  settle_unparsed, has_no_payload, refuse, write_again, settle_validation, settle_parsed,
  on_message, on_read, client_loop,
}
use api_firewall.GraphQl.WebSocket.Copies.{
  copies_of, validated, copies_parsed, copies, Forwarded, IsCalm, Logged, all_copies,
  all_copies-Forwarded, all_copies-Logged,
}

module _ (cfg : GraphQlMode) (parse : Str → Option GqlMessage) where
  module _ (accepts : List Frame → Frame → Bool)
      (open_backend : (sent : List Frame) (m : Frame) → accepts sent m ≡ true) where
    -- The loop goes on, with so many more copies sent.
    abbrev Wrote : Proxying → Frame → ℕ → Proxying → Type 0
    Wrote s m n t = (t.activity ≡ reading) × (t.sent ≡ s.sent ++ replicate n m)

    write_backend-Wrote :
        (s : Proxying) (m : Frame)
        → s.activity ≡ reading
        → Wrote s m 1 (write_backend cfg parse accepts s m)
    unfolding write_backend
    write_backend-Wrote s m r = rw (open_backend s.sent m) (r, refl)

    write_again-reading :
        (a : Activity) (t : Proxying) (m : Frame)
        → a ≡ reading
        → write_again cfg parse accepts a t m ≡ write_backend cfg parse accepts t m
    unfolding write_again
    write_again-reading a t m e = rw e

    write_again-Wrote :
        (s t : Proxying) (m : Frame)
        → Wrote s m 1 t
        → Wrote s m 2 (write_again cfg parse accepts t.activity t m)
    write_again-Wrote s t m (r, e) =
        let (r', e') = write_backend-Wrote t m r in
        let same = write_again-reading t.activity t m r in
        (
          ap (λ x. x.activity) same ∙ r',
          ap (λ x. x.sent) same
              ∙ e'
              ∙ ap (λ x. x ++ m ∷ []) e
              ∙ append_assoc s.sent (m ∷ []) (m ∷ []),
        )

    settle_validation-Wrote :
        (s : Proxying) (m : Frame) (msg : GqlMessage) (x : Option Stop)
        → s.activity ≡ reading
        → x ≢ some crashed
        → Wrote s m (copies_of cfg parse x) (settle_validation cfg parse accepts s m msg x)
    unfolding settle_validation copies_of refuse
    settle_validation-Wrote s m msg none r c = write_backend-Wrote s m r
    settle_validation-Wrote s m msg (some (invalid errors)) r c =
        elim (Bool-cases (equal_fold cfg.request_validation validation_block)) [
          | inl b ↦ rw b (r, sym (append_nil s.sent))
          | inr b ↦ rw b (write_backend-Wrote s m r)
        ]
    settle_validation-Wrote s m msg (some failed) r c =
        elim (Bool-cases (equal_fold cfg.request_validation validation_block)) [
          | inl b ↦ rw b (r, sym (append_nil s.sent))
          | inr b ↦ rw b (
              write_again-Wrote s (write_backend cfg parse accepts s m) m
                (write_backend-Wrote s m r))
        ]
    settle_validation-Wrote s m msg (some crashed) r c = absurd (c refl)

    settle_parsed-Wrote :
        (s : Proxying) (m : Frame) (x : Option GqlMessage)
        → s.activity ≡ reading
        → IsCalm cfg parse x
        → Wrote s m (copies_parsed cfg parse x) (settle_parsed cfg parse accepts s m x)
    unfolding settle_parsed copies_parsed settle_unparsed
    settle_parsed-Wrote s m none r c =
        elim (Bool-cases (equal_fold cfg.request_validation validation_log)) [
          | inl l ↦ rw l (write_backend-Wrote s m r)
          | inr l ↦ rw l (r, sym (append_nil s.sent))
        ]
    settle_parsed-Wrote s m (some msg) r c = elim (Bool-cases (has_no_payload msg)) [
      | inl p ↦ rw p (write_backend-Wrote s m r)
      | inr p ↦ rw p (settle_validation-Wrote s m msg (validated cfg parse msg) r (c msg refl))
    ]

    on_message-Wrote :
        (s : Proxying) (m : Frame)
        → s.activity ≡ reading
        → IsCalm cfg parse (parse m.payload)
        → Wrote s m (copies cfg parse m) (on_message cfg parse accepts s m)
    unfolding on_message copies
    on_message-Wrote s m r c = elim (Bool-cases (is_passed_over cfg m)) [
      | inl p ↦ rw p (write_backend-Wrote s m r)
      | inr p ↦ rw p (settle_parsed-Wrote s m (parse m.payload) r c)
    ]

    on_read-reading :
        (a : Activity) (s : Proxying) (m : Frame)
        → a ≡ reading
        → on_read cfg parse accepts a s (message m) ≡ on_message cfg parse accepts s m
    unfolding on_read
    on_read-reading a s m e = rw e

    client_loop-copies :
        (ms : List Frame) (s : Proxying)
        → s.activity ≡ reading
        → All (λ m. IsCalm cfg parse (parse m.payload)) ms
        → (client_loop cfg parse accepts (map message ms) s).sent
          ≡ s.sent ++ all_copies cfg parse ms
    unfolding client_loop all_copies
    client_loop-copies [] s r c = sym (append_nil s.sent)
    client_loop-copies (m ∷ ms) s r (c, cs) =
        let (r', e) = on_message-Wrote s m r c in
        ap (λ t. (client_loop cfg parse accepts (map message ms) t).sent)
          (on_read-reading s.activity s m r)
        ∙ client_loop-copies ms (on_message cfg parse accepts s m) r' cs
        ∙ ap (λ t. t ++ all_copies cfg parse ms) e
        ∙ append_assoc s.sent (replicate (copies cfg parse m) m) (all_copies cfg parse ms)

    -- In block mode, with a backend that takes all messages and no panic: exactly the messages that
    -- pass reach the backend, each once and in the client's order.
    pub client_loop-Forwarded :
        (ms : List Frame) (s : Proxying)
        → equal_fold cfg.request_validation validation_block ≡ true
        → equal_fold cfg.request_validation validation_log ≡ false
        → s.activity ≡ reading
        → All (λ m. IsCalm cfg parse (parse m.payload)) ms
        → (out : List Frame) × ((client_loop cfg parse accepts (map message ms) s).sent
            ≡ s.sent ++ out)
          × Forwarded cfg parse ms out
    client_loop-Forwarded ms s b l r c = (
      all_copies cfg parse ms,
      client_loop-copies ms s r c,
      all_copies-Forwarded cfg parse ms b l,
    )

    -- In log mode, with a backend that takes all messages and no panic, every message reaches the
    -- backend in the client's order: twice if it is validated and the validation returns an error,
    -- and else once.
    pub client_loop-Logged :
        (ms : List Frame) (s : Proxying)
        → equal_fold cfg.request_validation validation_block ≡ false
        → equal_fold cfg.request_validation validation_log ≡ true
        → s.activity ≡ reading
        → All (λ m. IsCalm cfg parse (parse m.payload)) ms
        → (out : List Frame) × ((client_loop cfg parse accepts (map message ms) s).sent
            ≡ s.sent ++ out)
          × Logged cfg parse ms out
    client_loop-Logged ms s b l r c =
        (all_copies cfg parse ms, client_loop-copies ms s r c, all_copies-Logged cfg parse ms b l c)
