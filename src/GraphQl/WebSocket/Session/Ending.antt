-- ===== src/GraphQl/WebSocket/Session/Ending.antt =====
-- How a session ends.
use api_firewall.Base.{
  ℕ, suc, sym, ap, subst, ◌∙◌, ◌+◌, ◌-◌, ◌≤◌, ◌≡◌, refl, Bool, true, false, List, [], ◌∷◌, ◌⊎◌, inl,
  inr, arith,
}
use api_firewall.GraphQl.WebSocket.Session.{
  Pc, selecting, transferring, finished, Session, Transfer, succeeds, fails, waits, Turn,
  client_turn, backend_turn, start, close_client, close_backend, step_client, step_backend, step,
  run,
}

abbrev pub is_finished : Pc → Bool
is_finished finished = true
is_finished selecting = false
is_finished transferring = false

-- A channel is closed exactly if its goroutine has returned, and none was closed twice.
pub record IsConsistent (s : Session) : Type 0 where
  pub client_closed : s.err_client ≡ is_finished s.client
  pub backend_closed : s.err_backend ≡ is_finished s.backend
  pub calm : s.panicked ≡ false

step_client-IsConsistent :
    (pc : Pc) (b : Transfer) (s : Session)
    → s.client ≡ pc
    → IsConsistent s
    → IsConsistent (step_client pc b s)
unfolding step_client close_client
step_client-IsConsistent selecting b s e c = ground arith
step_client-IsConsistent transferring succeeds s e c = ground arith
step_client-IsConsistent transferring fails s e c = ground arith
step_client-IsConsistent transferring waits s e c = c
step_client-IsConsistent finished b s e c = c

step_backend-IsConsistent :
    (pc : Pc) (b : Transfer) (s : Session)
    → s.backend ≡ pc
    → IsConsistent s
    → IsConsistent (step_backend pc b s)
unfolding step_backend close_backend
step_backend-IsConsistent selecting b s e c = ground arith
step_backend-IsConsistent transferring succeeds s e c = ground arith
step_backend-IsConsistent transferring fails s e c = ground arith
step_backend-IsConsistent transferring waits s e c = c
step_backend-IsConsistent finished b s e c = c

run-IsConsistent : (ts : List Turn) (s : Session) → IsConsistent s → IsConsistent (run ts s)
unfolding run step
run-IsConsistent [] s c = c
run-IsConsistent (client_turn b ∷ ts) s c =
    run-IsConsistent ts (step_client s.client b s) (step_client-IsConsistent s.client b s refl c)
run-IsConsistent (backend_turn b ∷ ts) s c =
    run-IsConsistent ts (step_backend s.backend b s)
      (step_backend-IsConsistent s.backend b s refl c)

-- The turns in which the client's goroutine does not wait for its read.
abbrev pub client_turns : List Turn → ℕ
client_turns [] = 0
client_turns (client_turn succeeds ∷ ts) = suc (client_turns ts)
client_turns (client_turn fails ∷ ts) = suc (client_turns ts)
client_turns (client_turn waits ∷ ts) = client_turns ts
client_turns (backend_turn b ∷ ts) = client_turns ts

abbrev pub backend_turns : List Turn → ℕ
backend_turns [] = 0
backend_turns (client_turn b ∷ ts) = backend_turns ts
backend_turns (backend_turn succeeds ∷ ts) = suc (backend_turns ts)
backend_turns (backend_turn fails ∷ ts) = suc (backend_turns ts)
backend_turns (backend_turn waits ∷ ts) = backend_turns ts

-- How many turns a goroutine still takes once the other has returned.
abbrev returns : Transfer → ℕ
returns succeeds = 1
returns fails = 1
returns waits = 0

abbrev left : Pc → ℕ
left selecting = 1
left transferring = 2
left finished = 0

abbrev pub BothFinished : Session → Type 0
BothFinished s = (s.client ≡ finished) × (s.backend ≡ finished)

left_zero : (pc : Pc) → left pc ≤ 0 → pc ≡ finished
left_zero selecting h = absurd (omega arith)
left_zero transferring h = absurd (omega arith)
left_zero finished h = refl

step_client-left :
    (pc : Pc) (b : Transfer) (s : Session)
    → s.client ≡ pc
    → s.err_client ≡ is_finished pc
    → s.err_backend ≡ true
    → (left (step_client pc b s).client ≤ left pc - returns b)
      × ((step_client pc b s).backend ≡ s.backend)
unfolding step_client close_client
step_client-left selecting succeeds s e c d = ground arith
step_client-left selecting fails s e c d = ground arith
step_client-left selecting waits s e c d = ground arith
step_client-left transferring succeeds s e c d = ground arith
step_client-left transferring fails s e c d = ground arith
step_client-left transferring waits s e c d = ground arith
step_client-left finished succeeds s e c d = ground arith
step_client-left finished fails s e c d = ground arith
step_client-left finished waits s e c d = ground arith

step_backend-left :
    (pc : Pc) (b : Transfer) (s : Session)
    → s.backend ≡ pc
    → s.err_backend ≡ is_finished pc
    → s.err_client ≡ true
    → (left (step_backend pc b s).backend ≤ left pc - returns b)
      × ((step_backend pc b s).client ≡ s.client)
unfolding step_backend close_backend
step_backend-left selecting succeeds s e c d = ground arith
step_backend-left selecting fails s e c d = ground arith
step_backend-left selecting waits s e c d = ground arith
step_backend-left transferring succeeds s e c d = ground arith
step_backend-left transferring fails s e c d = ground arith
step_backend-left transferring waits s e c d = ground arith
step_backend-left finished succeeds s e c d = ground arith
step_backend-left finished fails s e c d = ground arith
step_backend-left finished waits s e c d = ground arith

step_client-finished :
    (b : Transfer) (s : Session) → s.client ≡ finished → step_client s.client b s ≡ s
unfolding step_client
step_client-finished b s e = rw e

step_backend-finished :
    (b : Transfer) (s : Session) → s.backend ≡ finished → step_backend s.backend b s ≡ s
unfolding step_backend
step_backend-finished b s e = rw e

client_turns-cons :
    (b : Transfer) (ts : List Turn)
    → client_turns (client_turn b ∷ ts) ≡ returns b + client_turns ts
client_turns-cons succeeds ts = omega arith
client_turns-cons fails ts = omega arith
client_turns-cons waits ts = omega arith

backend_turns-cons :
    (b : Transfer) (ts : List Turn)
    → backend_turns (backend_turn b ∷ ts) ≡ returns b + backend_turns ts
backend_turns-cons succeeds ts = omega arith
backend_turns-cons fails ts = omega arith
backend_turns-cons waits ts = omega arith

client_ends :
    (ts : List Turn) (s : Session)
    → IsConsistent s
    → s.backend ≡ finished
    → left s.client ≤ client_turns ts
    → BothFinished (run ts s)
unfolding run step
client_ends [] s c e h = (left_zero s.client h, e)
client_ends (client_turn b ∷ ts) s c e h =
    let turn = client_turns-cons b ts in
    let closed : s.err_backend ≡ true = c.backend_closed ∙ ap is_finished e in
    let l = step_client-left s.client b s refl c.client_closed closed in
    client_ends ts (step_client s.client b s) (step_client-IsConsistent s.client b s refl c)
      (l.1 ∙ e) (omega (arith, l.0, h, turn))
client_ends (backend_turn b ∷ ts) s c e h =
    subst (λ t. BothFinished (run ts t)) (sym (step_backend-finished b s e))
      (client_ends ts s c e h)

backend_ends :
    (ts : List Turn) (s : Session)
    → IsConsistent s
    → s.client ≡ finished
    → left s.backend ≤ backend_turns ts
    → BothFinished (run ts s)
unfolding run step
backend_ends [] s c e h = (e, left_zero s.backend h)
backend_ends (backend_turn b ∷ ts) s c e h =
    let turn = backend_turns-cons b ts in
    let closed : s.err_client ≡ true = c.client_closed ∙ ap is_finished e in
    let l = step_backend-left s.backend b s refl c.backend_closed closed in
    backend_ends ts (step_backend s.backend b s) (step_backend-IsConsistent s.backend b s refl c)
      (l.1 ∙ e) (omega (arith, l.0, h, turn))
backend_ends (client_turn b ∷ ts) s c e h =
    subst (λ t. BothFinished (run ts t)) (sym (step_client-finished b s e))
      (backend_ends ts s c e h)

left-le : (pc : Pc) → left pc ≤ 2
left-le selecting = omega arith
left-le transferring = omega arith
left-le finished = omega arith

-- Once one of the goroutines has returned, under whatever schedule, both have after two more turns of
-- each in which it does not wait for a read that has not returned, in whatever order the turns are
-- taken and with however many turns of waiting between them. No channel was closed twice, which would
-- be a panic, and each is closed exactly if its goroutine has returned.
pub run-ends :
    (before after : List Turn)
    → ((run before start).client ≡ finished) ⊎ ((run before start).backend ≡ finished)
    → 2 ≤ client_turns after
    → 2 ≤ backend_turns after
    → BothFinished (run after (run before start)) × IsConsistent (run after (run before start))
run-ends before after d m n =
    let s = run before start in
    let c =
      run-IsConsistent before start
        (record { client_closed = refl; backend_closed = refl; calm = refl }) in
    (
      elim d [
        | inl e ↦ backend_ends after s c e (omega (arith, left-le s.backend))
        | inr e ↦ client_ends after s c e (omega (arith, left-le s.client))
      ],
      run-IsConsistent after s c,
    )
