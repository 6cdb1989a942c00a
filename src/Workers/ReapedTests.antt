-- ===== src/Workers/ReapedTests.antt =====
-- A small table of processes that obeys the manual, and a shutdown of two workers on it.
use fwknox.Base.{
  ◌≡◌, refl, Bool, true, false, not, ◌||◌, ◌&&◌, Option, none, some, List, [], ◌∷◌, Result, ok, err,
  if◌then◌else◌, ◌==◌, nat_eq, list_eq, arith, inl, inr, ◌⊎◌, Bool-cases, ok-injective, some-eq, ap,
  sym, ◌∙◌,
}
use fwknox.Workers.Ipc.{Errno, echild, eintr, syscall}
use fwknox.Workers.Fork.{
  Pid, WaitStatus, exited, Processes, ForkedWorker, stop_workers, drop_workers, terminate_and_wait,
  signal_terminate, wait, try_reap_any_child,
}
use fwknox.Workers.Reaped.{ended_pid, IsPosix, stop_workers-reaps}

unfoldable has : Pid → List Pid → Bool
has q [] = false
has q (p ∷ ps) = (p == q) || has q ps

unfoldable without : Pid → List Pid → List Pid
without q [] = []
without q (p ∷ ps) = let rest = without q ps in if p == q then rest else p ∷ rest

-- A child ends at once when it is waited for.
unfoldable take_child : Option Pid → List Pid → List Pid × Result Errno WaitStatus
take_child none [] = ([], err echild)
take_child none (p ∷ ps) = (without p (p ∷ ps), ok (exited p 0))
take_child (some p) ps = if has p ps then (without p ps, ok (exited p 0)) else (ps, err echild)

abbrev toy : Processes
toy = record {
  Table = List Pid;
  kill = λ p ps. (ps, ok tt);
  waitpid = λ who no_hang ps. take_child who ps;
}

without-has : (q p : Pid) (ps : List Pid) → has q (without p ps) ≡ (not (p == q) && has q ps)
unfolding has without
without-has q p [] = ground arith
without-has q p (r ∷ ps) = ground (arith, without-has q p ps)

taken : (p : Pid) (ps : List Pid) → has p (without p ps) ≡ false
taken p ps = ground (arith, without-has p p ps, nat_eq.decides p p)

no_new :
    (who : Option Pid) (q : Pid) (ps : List Pid)
    → has q ps ≡ false
    → has q (take_child who ps).0 ≡ false
unfolding take_child
no_new none q [] h = h
no_new none q (p ∷ ps) h = ground (arith, without-has q p (p ∷ ps))
no_new (some p) q ps h = ground (arith, without-has q p ps)

found :
    (p : Pid) (ps : List Pid)
    → has p ps ≡ true
    → take_child (some p) ps ≡ (without p ps, ok (exited p 0))
unfolding take_child
found p ps h = rw h refl

missing : (p : Pid) (ps : List Pid) → has p ps ≡ false → take_child (some p) ps ≡ (ps, err echild)
unfolding take_child
missing p ps h = rw h refl

end_of : {p q : Pid} {st : WaitStatus} → exited p 0 ≡ st → ended_pid st ≡ some q → p ≡ q
unfolding ended_pid
end_of e end = some-eq (ap ended_pid e ∙ end)

ended :
    (who : Option Pid) (ps : List Pid) {st : WaitStatus} {q : Pid}
    → (take_child who ps).1 ≡ ok st
    → ended_pid st ≡ some q
    → (has q ps ≡ true) × (has q (take_child who ps).0 ≡ false)
unfolding take_child has
ended none [] got end = absurd (cc)
ended none (p ∷ ps) got end =
    rw⁻¹ (end_of (ok-injective got) end) (ground (arith, nat_eq.decides p p), taken p (p ∷ ps))
ended (some p) ps got end = elim (Bool-cases (has p ps)) [
  | inl here ↦
      let result = found p ps here in
      rw⁻¹ (end_of (ok-injective (sym (ap (λ x. x.1) result) ∙ got)) end)
        (here, ap (λ x. has p x.0) result ∙ taken p ps)
  | inr gone ↦ absurd (let result = ap (λ x. x.1) (missing p ps gone) in cc)
]

blocks :
    (p : Pid) (ps : List Pid) {st : WaitStatus}
    → (take_child (some p) ps).1 ≡ ok st
    → ended_pid st ≡ some p
unfolding ended_pid
blocks p ps got = elim (Bool-cases (has p ps)) [
  | inl here ↦ ap ended_pid (sym (ok-injective (sym (ap (λ x. x.1) (found p ps here)) ∙ got)))
  | inr gone ↦ absurd (let result = ap (λ x. x.1) (missing p ps gone) in cc)
]

refused :
    (p : Pid) (ps : List Pid) {e : Errno}
    → (take_child (some p) ps).1 ≡ err e
    → (e ≡ eintr) ⊎ (has p (take_child (some p) ps).0 ≡ false)
refused p ps failed = elim (Bool-cases (has p ps)) [
  | inl here ↦ absurd (let result = ap (λ x. x.1) (found p ps here) in cc)
  | inr gone ↦ inr (ap (λ x. has p x.0) (missing p ps gone) ∙ gone)
]

toy-IsPosix : IsPosix toy
toy-IsPosix = record {
  is_child = has;
  kill_keeps = λ pid q s. refl;
  no_new = λ who no_hang q s. no_new who q s;
  ended = λ who no_hang s got end. ended who s got end;
  blocks = λ pid s got. blocks pid s got;
  refused = λ pid s failed. refused pid s failed;
}

abbrev capture_worker : ForkedWorker
capture_worker = record { pid = 7; name = "capture" }

abbrev crypto_worker : ForkedWorker
crypto_worker = record { pid = 8; name = "crypto" }

-- The crypto worker is dead, and found so.
abbrev left : List Pid
left = (try_reap_any_child toy (8 ∷ 7 ∷ [])).0

both_stopped :
    ((stop_workers toy capture_worker crypto_worker left).1 ≡ ok (exited 7 0))
    × ((stop_workers toy capture_worker crypto_worker left).2 ≡ err (syscall "waitpid" echild))
unfolding stop_workers terminate_and_wait signal_terminate wait try_reap_any_child take_child has
    without
both_stopped = (refl, refl)

none_left :
    let last =
      drop_workers toy capture_worker crypto_worker
        (stop_workers toy capture_worker crypto_worker left).0 in
    (has 7 last ≡ false) × (has 8 last ≡ false)
unfolding has toy-IsPosix
none_left =
    stop_workers-reaps toy toy-IsPosix capture_worker crypto_worker left
      (λ e. absurd (let fine = both_stopped.0 in cc))
      (λ e. absurd (let fine = both_stopped.1 in cc))
