-- ===== src/Executor/Order.antt =====
-- request-executor.mjs: in which order the candidates of a plan are tried.
use tokligence_gateway.Prelude.{
  ◌≡◌, ◌⊎◌, refl, ap, ◌∙◌, subst, inl, inr, Bool, true, false, ◌||◌, List, [], ◌∷◌, Option, none,
  some, arith, Bool-cases, Option-cases,
}
use tokligence_gateway.Planner.{Candidate}
use tokligence_gateway.Executor.{
  Thrown, Answer, Delivery, delivered, left, unsettled, stream_failed, failed_early, failed_late,
  Run, is_ok,
}
use tokligence_gateway.Executor.Attempts.{Result, moved_on, cut, thrown, settled, attempts}
use tokligence_gateway.Executor.Failover.{
  Context, Ending, committed, used_up, Turned, next, ended, Script, lane_status, on_error, on_relay,
  on_body, is_relayed, on_settled, on_result, try_candidate, failover, is_empty, retries,
}

-- The candidates before the rest have been left behind, one after the other.
pub data Skips (x : Context)
    : Run → List (Candidate × Script) → Run → List (Candidate × Script) → Type 0 where
  here : {run : Run} {rest : List (Candidate × Script)} → Skips x run rest run rest
  onward :
      {run run' last : Run} {c : Candidate} {script : Script} {rest end : List (Candidate × Script)}
      → script.before ≡ false
      → try_candidate x run c script (is_empty rest) ≡ next run'
      → Skips x run' rest last end
      → Skips x run ((c, script) ∷ rest) last end

-- What a turn of a candidate may be: it commits no other one and never uses up the plan.
unfoldable IsOf : Candidate → Turned → Type 0
IsOf c (next run) = Unit
IsOf c (ended run (committed d)) = d ≡ c
IsOf c (ended run used_up) = ⊥
IsOf c (ended run _) = Unit

on_error-IsOf :
    (x : Context) (run : Run) (c : Candidate) (held : Option Answer) (e : Thrown)
    (is_aborted sent is_last : Bool)
    → IsOf c (on_error x run c held e is_aborted sent is_last)
unfolding on_error IsOf
on_error-IsOf x run c held e is_aborted true is_last = refl
on_error-IsOf x run c held e true false is_last = tt
on_error-IsOf x run c held e false false is_last = elim (Option-cases (lane_status c e is_last)) [
  | inl nothing ↦ rw nothing tt
  | inr (status, own) ↦ rw own tt
]

on_relay-IsOf :
    (run : Run) (c : Candidate) (a : Answer) (d : Delivery) → IsOf c (on_relay run c a d)
unfolding on_relay IsOf
on_relay-IsOf run c a v3 = ground arith

on_body-IsOf :
    (x : Context) (run : Run) (c : Candidate) (a : Answer) (is_last : Bool) (d : Delivery)
    → IsOf c (on_body x run c a is_last d)
unfolding on_body IsOf
on_body-IsOf x run c a is_last delivered = refl
on_body-IsOf x run c a is_last left = refl
on_body-IsOf x run c a is_last unsettled = tt
on_body-IsOf x run c a is_last (stream_failed has_content) = refl
on_body-IsOf x run c a is_last (failed_early e) =
    on_error-IsOf x run c (some a) e false false is_last
on_body-IsOf x run c a is_last (failed_late e) = on_error-IsOf x run c (some a) e false true is_last

on_settled-IsOf :
    (x : Context) (run : Run) (c : Candidate) (a : Answer) (is_last : Bool)
    → IsOf c (on_settled x run c a is_last)
unfolding on_settled IsOf
on_settled-IsOf x run c a is_last = elim (Bool-cases (is_ok a.status)) [
  | inl ok ↦ elim (Bool-cases (is_relayed x c a)) [
    | inl relay ↦ rw (ok, relay) (on_relay-IsOf run c a a.delivery)
    | inr body ↦ rw (ok, body) (on_body-IsOf x run c a is_last a.delivery)
  ]
  | inr bad ↦ elim (Bool-cases (a.bridge || a.specialist)) [
    | inl own ↦ rw (bad, own) tt
    | inr other ↦ elim (Option-cases a.account) [
      | inl nothing ↦ rw (bad, other, nothing) tt
      | inr (account, pooled) ↦ rw (bad, other, pooled) tt
    ]
  ]
]

on_result-IsOf :
    (x : Context) (c : Candidate) (is_aborted is_last : Bool) (end : Run × Option Answer × Result)
    → IsOf c (on_result x c is_aborted is_last end)
unfolding on_result IsOf
on_result-IsOf x c is_aborted is_last (run, held, moved_on) = tt
on_result-IsOf x c is_aborted is_last (run, held, cut) = tt
on_result-IsOf x c is_aborted is_last (run, held, thrown e) =
    on_error-IsOf x run c held e is_aborted false is_last
on_result-IsOf x c is_aborted is_last (run, held, settled a) = on_settled-IsOf x run c a is_last

try_candidate-IsOf :
    (x : Context) (run : Run) (c : Candidate) (script : Script) (is_last : Bool)
    → IsOf c (try_candidate x run c script is_last)
unfolding try_candidate
try_candidate-IsOf x run c script is_last =
    on_result-IsOf x c script.by_error is_last
      (attempts c.protocol script.turns (retries x c) 0 run none)

Turned-cases :
    (t : Turned)
    → ((run : Run) × (t ≡ next run)) ⊎ ((run : Run) × (ending : Ending) × (t ≡ ended run ending))
Turned-cases (next run) = inl (run, refl)
Turned-cases (ended run ending) = inr (run, ending, refl)

-- A request whose plan commits to a candidate has tried the candidates before it in the order of
-- the plan and has left each of them behind, and the one that it commits to is the one that answers.
pub failover-committed :
    (x : Context) (run last : Run) (plan : List (Candidate × Script)) (c : Candidate)
    → failover x run plan ≡ (last, committed c)
    → (run' : Run) × (script : Script) × (rest : List (Candidate × Script)) × Skips x run plan run'
        ((c, script) ∷ rest)
      × (try_candidate x run' c script (is_empty rest) ≡ ended last (committed c))
unfolding failover IsOf
failover-committed x run last [] c h = absurd (ground arith)
failover-committed x run last ((d, script) ∷ rest) c h = elim (Bool-cases script.before) [
  | inl gone ↦ absurd (ground arith)
  | inr going ↦ elim (Turned-cases (try_candidate x run d script (is_empty rest))) [
    | inl (run', behind) ↦
        let (run'', script', rest', skips, answer) =
          failover-committed x run' last rest c (ground arith) in
        (run'', script', rest', onward going behind skips, answer)
    | inr (run', ending, stop) ↦
        let same : (run', ending) ≡ (last, committed c) = ground arith in
        let end = stop ∙ ap (λ (r : Run × Ending). ended r.0 r.1) same in
        let own : c ≡ d = subst (IsOf d) end (try_candidate-IsOf x run d script (is_empty rest)) in
        rw own (run, script, rest, here, end ∙ ap (λ e. ended last (committed e)) own)
  ]
]

-- A request that gives up has tried every candidate of its plan, in the plan's order, and has left
-- each of them behind.
pub failover-used_up :
    (x : Context) (run last : Run) (plan : List (Candidate × Script))
    → failover x run plan ≡ (last, used_up)
    → Skips x run plan last []
unfolding failover IsOf
failover-used_up x run last [] h =
    let same : run ≡ last = ground arith in subst (λ r. Skips x run [] r []) same here
failover-used_up x run last ((d, script) ∷ rest) h = elim (Bool-cases script.before) [
  | inl gone ↦ absurd (ground arith)
  | inr going ↦ elim (Turned-cases (try_candidate x run d script (is_empty rest))) [
    | inl (run', behind) ↦ onward going behind (failover-used_up x run' last rest (ground arith))
    | inr (run', ending, stop) ↦
        let same : (run', ending) ≡ (last, used_up) = ground arith in
        let end = stop ∙ ap (λ (r : Run × Ending). ended r.0 r.1) same in
        absurd (subst (IsOf d) end (try_candidate-IsOf x run d script (is_empty rest)))
  ]
]
