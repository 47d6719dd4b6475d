-- ===== src/Process/Interruption.antt =====
-- `Pump` of WorkerSupervisor.cpp in source/ARTestEngine.Process: how an interruption runs through
-- its loop.
use artest_cli.Base.{
  ℕ, ◌≡◌, refl, sym, subst, ◌∙◌, ◌+◌, Bool, true, false, List, [], ◌∷◌, not, ◌&&◌, All,
  if◌then◌else◌, arith,
}
use mathlib.Core.Bool.{true≢false}
use artest_cli.Process.Cancelling.{IsInterruption, KeepsCancel, await-KeepsCancel}
use artest_cli.Process.Wire.{cancel_body, Envelope, Answer, answered, thrown, new_message}
use artest_cli.Process.Supervisor.{
  Supervisor, Turn, Waiting, Progress, ended, going, is_up, interrupted, interruption, await,
  interrupt, cancel_written, turn, pump, sent,
}

pub IsInterruption_lem : (now deadline : ℕ) → IsInterruption (interruption now deadline)
IsInterruption_lem now deadline = ground arith

pub sent_once : (b x : Bool) → b ≡ true → (not b && x) ≡ true → ⊥
sent_once true x e i = true≢false (sym i)
sent_once false x e i = true≢false (sym e)

sent_after : (b x : Bool) → x ≡ true → (not b && x) ≡ false → b ≡ true
sent_after true x e i = refl
sent_after false x e i = sym i ∙ e

module _ (g c d : ℕ) (Grace : ℕ → Type 0) where
  -- A call that has asked the worker to give up, with a grace as `Grace` says.
  abbrev pub IsCancelling : Waiting → Type 0
  IsCancelling l = (l.cancel_sent ≡ true) × IsInterruption l.interrupted_status × Grace l.grace

  abbrev pub IsSettled : Progress → Type 0
  IsSettled (going l s) = IsCancelling l
  IsSettled (ended (answered r) s) = IsInterruption r.status
  IsSettled (ended (thrown x) s) = Unit

  abbrev pub MayCancel : Waiting → Type 0
  MayCancel l = l.cancel_sent ≡ true → IsCancelling l

  abbrev pub Continues : Progress → Type 0
  Continues (going l s) = MayCancel l
  Continues (ended a s) = Unit

  KeepsCancel-IsSettled :
      (l : Waiting) (p : Progress) → IsCancelling l → KeepsCancel l p → IsSettled p
  KeepsCancel-IsSettled l (going l1 s) (e, i, k) (x, y, z) =
      (x ∙ e, subst IsInterruption (sym y) i, subst Grace (sym z) k)
  KeepsCancel-IsSettled l (ended (answered r) s) (e, i, k) h = subst IsInterruption (sym (h e)) i
  KeepsCancel-IsSettled l (ended (thrown x) s) h k = tt

  KeepsCancel-Continues : (l : Waiting) (p : Progress) → MayCancel l → KeepsCancel l p → Continues p
  KeepsCancel-Continues l (going l1 s) m k =
      λ e. KeepsCancel-IsSettled l (going l1 s) (m (sym k.0 ∙ e)) k
  KeepsCancel-Continues l (ended a s) m k = tt

  IsSettled-Continues : (p : Progress) → IsSettled p → Continues p
  IsSettled-Continues (going l s) h = λ e. h
  IsSettled-Continues (ended a s) h = tt

  cancel_written-IsSettled :
      (m : Envelope) (a : Answer (Unit {0})) (t : Turn) (l : Waiting) (s : Supervisor)
      → Grace (t.now + g)
      → IsSettled (cancel_written g c d m a t l s)
  cancel_written-IsSettled m (thrown x) t l s h = tt
  cancel_written-IsSettled m (answered u) t l s h =
      let l1 = record l {
        cancel_sent = true;
        interrupted_status = interruption t.now d;
        grace = t.now + g;
      } in
      KeepsCancel-IsSettled l1 (await g c d t l1 (sent m s)) (refl, IsInterruption_lem t.now d, h)
        (await-KeepsCancel g c d t l1 (sent m s))

  if-IsSettled :
      (x : Bool) (p q : Progress)
      → (x ≡ true → IsSettled p)
      → (x ≡ false → IsSettled q)
      → IsSettled (if x then p else q)
  if-IsSettled true p q hp hq = hp refl
  if-IsSettled false p q hp hq = hq refl

  if-Continues :
      (x : Bool) (p q : Progress) → Continues p → Continues q → Continues (if x then p else q)
  if-Continues true p q hp hq = hp
  if-Continues false p q hp hq = hq

  -- A turn that sees an interruption, or that comes after one.
  pub turn-IsSettled :
      (t : Turn) (l : Waiting) (s : Supervisor)
      → MayCancel l
      → Grace (t.now + g)
      → interrupted d t ≡ true
      → IsSettled (turn g c d t l s)
  unfolding turn interrupt
  turn-IsSettled t l s m h e =
      let a = new_message s.generation c (cancel_body false) in
      if-IsSettled (is_up s) _ _
        (λ u.
          if-IsSettled (not l.cancel_sent && interrupted d t) _ _
            (λ i. cancel_written-IsSettled a (t.writes a) t l s h)
            (λ i.
              KeepsCancel-IsSettled l (await g c d t l s)
                (m (sent_after l.cancel_sent (interrupted d t) e i))
                (await-KeepsCancel g c d t l s)))
        (λ u. tt)

  pub IsCancelling-IsSettled :
      (t : Turn) (l : Waiting) (s : Supervisor) → IsCancelling l → IsSettled (turn g c d t l s)
  unfolding turn interrupt
  IsCancelling-IsSettled t l s h =
      let a = new_message s.generation c (cancel_body false) in
      if-IsSettled (is_up s) _ _
        (λ u.
          if-IsSettled (not l.cancel_sent && interrupted d t) _ _
            (λ i. absurd (sent_once l.cancel_sent (interrupted d t) h.0 i))
            (λ i. KeepsCancel-IsSettled l (await g c d t l s) h (await-KeepsCancel g c d t l s)))
        (λ u. tt)

  pub turn-Continues :
      (t : Turn) (l : Waiting) (s : Supervisor)
      → MayCancel l
      → Grace (t.now + g)
      → Continues (turn g c d t l s)
  unfolding turn interrupt
  turn-Continues t l s m h =
      let a = new_message s.generation c (cancel_body false) in
      if-Continues (is_up s) _ _
        (if-Continues (not l.cancel_sent && interrupted d t) _ _
          (IsSettled-Continues (cancel_written g c d a (t.writes a) t l s)
            (cancel_written-IsSettled a (t.writes a) t l s h))
          (KeepsCancel-Continues l (await g c d t l s) m (await-KeepsCancel g c d t l s)))
        tt

  -- How the loop goes on after a turn.
  pub carry-IsSettled :
      (p : Progress) (k : Waiting → Supervisor → Progress)
      → IsSettled p
      → ((l : Waiting) (s : Supervisor) → IsCancelling l → IsSettled (k l s))
      → IsSettled (elim p [ ended a s ↦ ended a s | going l s ↦ k l s ])
  carry-IsSettled (ended a s) k h f = h
  carry-IsSettled (going l s) k h f = f l s h

  pub pump-IsSettled :
      (ts : List Turn) (l : Waiting) (s : Supervisor)
      → IsCancelling l
      → IsSettled (pump g c d ts l s)
  unfolding pump
  pump-IsSettled [] l s h = h
  pump-IsSettled (t ∷ ts) l s h =
      carry-IsSettled (turn g c d t l s) (pump g c d ts) (IsCancelling-IsSettled t l s h)
        (pump-IsSettled ts)

  carry-Continues :
      (p : Progress) (k : Waiting → Supervisor → Progress)
      → Continues p
      → ((l : Waiting) (s : Supervisor) → MayCancel l → Continues (k l s))
      → Continues (elim p [ ended a s ↦ ended a s | going l s ↦ k l s ])
  carry-Continues (ended a s) k h f = tt
  carry-Continues (going l s) k h f = f l s h

  pub pump-Continues :
      (ts : List Turn) (l : Waiting) (s : Supervisor)
      → MayCancel l
      → All (λ t. Grace (t.now + g)) ts
      → Continues (pump g c d ts l s)
  unfolding pump
  pump-Continues [] l s m h = m
  pump-Continues (t ∷ ts) l s m h =
      carry-Continues (turn g c d t l s) (pump g c d ts) (turn-Continues t l s m h.0)
        (λ l1 s1 m1. pump-Continues ts l1 s1 m1 h.1)
