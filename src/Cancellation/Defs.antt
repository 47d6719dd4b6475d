-- ===== src/Cancellation/Defs.antt =====
-- Tokens, their reads and their waits: Execution/Cancellation.cpp of source/ARTestEngine.Core.
use artest_cli.Base.{
  ℕ, ◌+◌, ◌-◌, min, max, Bool, true, false, Option, none, some, leb, if◌then◌else◌,
}
use artest_cli.Base.Int.{ℤ, pos, pos_part, neg_part, leb_ℤ}
use artest_cli.World.{World, pass}

pub data CancellationReason : Type 0 where
  no_reason requested timed_out : CancellationReason

-- `shared` tells whether the token has a shared state; a default token has none.
pub record CancellationToken : Type 0 where
  pub shared : Bool
  pub deadline : Option ℕ

abbrev pub source_token : CancellationToken
source_token = record { shared = true; deadline = none }

unfoldable pub is_cancellation_requested : CancellationToken → World → Bool × World
is_cancellation_requested t w = if t.shared then ((pass w).requested, pass w) else (false, w)

unfoldable pub is_timed_out : CancellationToken → World → Bool × World
is_timed_out t w = elim t.deadline [ none ↦ (false, w) | some d ↦ (leb d (pass w).clock, pass w) ]

unfoldable pub reason : CancellationToken → World → CancellationReason × World
reason t w =
    let (asked, w1) = is_cancellation_requested t w in
    let (late, w2) = is_timed_out t w1 in
    if asked then (requested, w1) else (if late then timed_out else no_reason, w2)

-- A time point `d` milliseconds after `t`; the clock's epoch is the earliest.
abbrev pub after : ℕ → ℤ → ℕ
after t d = t + pos_part d - neg_part d

abbrev pub earlier : Option ℕ → ℕ → ℕ
earlier none t = t
earlier (some d) t = min d t

-- `condition_variable::wait_until(lock, end, requested)`: it returns at once if cancellation is
-- requested, early when it gets requested, and else when the end has come.
unfoldable pub wait_until_requested : ℕ → World → World
wait_until_requested end w =
    if (pass w).requested then pass w else record (pass w) { clock = max (pass w).clock end }

-- `this_thread::sleep_until(end)`.
unfoldable pub sleep_until : ℕ → World → World
sleep_until end w = record (pass w) { clock = max (pass w).clock end }

abbrev pub is_reason : CancellationReason → Bool
is_reason no_reason = false
is_reason _ = true

-- The blocking part of `WaitFor`, from the computation of the end on.
unfoldable pub block_until : CancellationToken → ℤ → World → World
block_until t duration w =
    let end = earlier t.deadline (after (pass w).clock duration) in
    if t.shared then wait_until_requested end (pass w) else sleep_until end (pass w)

unfoldable pub wait_for : CancellationToken → ℤ → World → Bool × World
wait_for t duration w =
    let (first, w1) = reason t w in
    if is_reason first
    then (true, w1)
    else let (last, w2) = reason t (block_until t duration w1) in (is_reason last, w2)

unfoldable pub with_timeout : CancellationToken → ℤ → World → CancellationToken × World
with_timeout t timeout w =
    if leb_ℤ timeout (pos 0)
    then (t, w)
    else (record t { deadline = some (earlier t.deadline (after (pass w).clock timeout)) }, pass w)

-- `CancellationSource::Cancel`.
unfoldable pub cancel : World → World
cancel w = record w { requested = true }
