-- ===== src/Process/Cancelling.antt =====
-- `Pump` of WorkerSupervisor.cpp in source/ARTestEngine.Process: what a turn of its loop does to a
-- cancellation that was sent.
use artest_cli.Base.{
  ℕ, ◌≡◌, refl, ◌+◌, Bool, true, false, Option, none, some, ◌∷◌, not, ◌||◌, ◌&&◌, ◌⊎◌, leb,
  if◌then◌else◌, any, str_eq, ◌%◌, ◌==◌,
}
use artest_cli.Process.Wire.{
  Status, cancelled, timed_out, Request, Response, Event, Body, hello_body, request_body,
  response_body, cancel_body, event_body, no_body, Envelope, process_error, other_error, Answer,
  answered, thrown, new_message,
}
use artest_cli.Process.Supervisor.{
  Supervisor, Turn, Waiting, Progress, ended, going, is_up, classified, receive, receive_body,
  counted, deliver, serve_request, reply, reply_written, leave, dispatched, settle, await,
  find_pending, is_active, is_pending, is_service, service_key,
}

-- The status that an interruption reports.
abbrev pub IsInterruption : Status → Type 0
IsInterruption x = (x ≡ timed_out) ⊎ (x ≡ cancelled)

-- One step keeps the cancellation, its status and its grace, and answers an interruption by them.
abbrev pub KeepsCancel : Waiting → Progress → Type 0
KeepsCancel l (going l1 s) =
    (l1.cancel_sent ≡ l.cancel_sent)
    × (l1.interrupted_status ≡ l.interrupted_status)
    × (l1.grace ≡ l.grace)
KeepsCancel l (ended (answered r) s) = l.cancel_sent ≡ true → r.status ≡ l.interrupted_status
KeepsCancel l (ended (thrown x) s) = Unit

if-KeepsCancel :
    (b : Bool) (l : Waiting) (p q : Progress)
    → KeepsCancel l p
    → KeepsCancel l q
    → KeepsCancel l (if b then p else q)
if-KeepsCancel true l p q hp hq = hp
if-KeepsCancel false l p q hp hq = hq

module _ (g c d : ℕ) where
  leave-KeepsCancel :
      (n : ℕ) (l : Waiting) (p : Progress) → KeepsCancel l p → KeepsCancel l (leave g c d n p)
  leave-KeepsCancel n l (ended (answered r) s) h = h
  leave-KeepsCancel n l (ended (thrown x) s) h = h
  leave-KeepsCancel n l (going l1 s) h = h

  reply_written-KeepsCancel :
      (m : Envelope) (a : Answer (Unit {0})) (l : Waiting) (s : Supervisor)
      → KeepsCancel l (reply_written g c d m a l s)
  reply_written-KeepsCancel m (thrown x) l s = tt
  reply_written-KeepsCancel m (answered u) l s = (refl, refl, refl)

  reply-KeepsCancel :
      (k : ℕ) (t : Turn) (l : Waiting) (a : Answer Response) (s : Supervisor)
      → KeepsCancel l (reply g c d k t l a s)
  reply-KeepsCancel k t l (thrown x) s = tt
  reply-KeepsCancel k t l (answered r) s =
      let m = new_message s.generation k (response_body r) in
      if-KeepsCancel (is_up s) l _ _ (reply_written-KeepsCancel m (t.writes m) l s) tt

  deliver-KeepsCancel :
      (e : Event) (a : Answer (Unit {0})) (l : Waiting) (s : Supervisor)
      → KeepsCancel l (deliver g c d e a l s)
  deliver-KeepsCancel e (thrown x) l s = tt
  deliver-KeepsCancel e (answered u) l s = (refl, refl, refl)

  counted-KeepsCancel :
      (e : Event) (t : Turn) (l : Waiting) (s : Supervisor) → KeepsCancel l (counted g c d e t l s)
  counted-KeepsCancel e t l s =
      if-KeepsCancel (leb l.events 128) l _ _
        (if-KeepsCancel s.has_event_handler l _ _ (deliver-KeepsCancel e t.handles_event l s)
          (refl, refl, refl))
        (refl, refl, refl)

  serve_request-KeepsCancel :
      (m : Envelope) (r : Request) (t : Turn) (l : Waiting) (s : Supervisor)
      → KeepsCancel l (serve_request g c d m r t l s)
  serve_request-KeepsCancel m r t l s =
      let inside = record s {
        service_parent = m.correlation;
        service_ancestry = service_key g c d r ∷ s.service_ancestry;
      } in
      let (a, after) = dispatched g c d r t l inside in
      leave-KeepsCancel s.service_parent l (reply g c d m.correlation t l a after)
        (reply-KeepsCancel m.correlation t l a after)

  receive_body-KeepsCancel :
      (b : Body) (m : Envelope) (t : Turn) (l : Waiting) (s : Supervisor)
      → KeepsCancel l (receive_body g c d b m t l s)
  receive_body-KeepsCancel (response_body r) m t l s =
      if-KeepsCancel (not (is_active m.correlation s) || is_pending m.correlation s.pending) l _ _
        tt (refl, refl, refl)
  receive_body-KeepsCancel (cancel_body a) m t l s =
      if-KeepsCancel
        (not (is_active m.correlation s)
          || not a
          || not l.cancel_sent
          || l.cancel_acknowledged
          || not (m.correlation == c))
        l _ _ tt (refl, refl, refl)
  receive_body-KeepsCancel (event_body e) m t l s =
      if-KeepsCancel (is_active m.correlation s) l _ _
        (counted-KeepsCancel e t (record l { events = l.events + 1 }) s) tt
  receive_body-KeepsCancel (request_body r) m t l s =
      if-KeepsCancel
        (not (m.correlation % 2 == 1)
          || leb m.correlation s.last_service
          || not (is_active m.parent s)
          || not (is_service r.operation))
        l _ _ tt
        (if-KeepsCancel (any (λ k. str_eq k (service_key g c d r)) s.service_ancestry) l _ _ tt
          (serve_request-KeepsCancel m r t l (record s { last_service = m.correlation })))
  receive_body-KeepsCancel (hello_body h) m t l s = tt
  receive_body-KeepsCancel no_body m t l s = tt

  receive-KeepsCancel :
      (a : Answer Envelope) (t : Turn) (l : Waiting) (s : Supervisor)
      → KeepsCancel l (receive g c d a t l s)
  receive-KeepsCancel (answered m) t l s =
      if-KeepsCancel (m.generation == s.generation) l _ _ (receive_body-KeepsCancel m.body m t l s)
        tt
  receive-KeepsCancel (thrown other_error) t l s = tt
  receive-KeepsCancel (thrown (process_error code text)) t l s =
      if-KeepsCancel (str_eq code "PROCESS_IO_TIMEOUT") l _ _ (refl, refl, refl) tt

  classified-status :
      (l : Waiting) (r : Response)
      → l.cancel_sent ≡ true
      → (classified l r).status ≡ l.interrupted_status
  classified-status l r e = rw e refl

  settle-KeepsCancel :
      (o : Option Response) (t : Turn) (l : Waiting) (s : Supervisor)
      → KeepsCancel l (settle g c d o t l s)
  settle-KeepsCancel none t l s = receive-KeepsCancel t.read t l s
  settle-KeepsCancel (some r) t l s =
      if-KeepsCancel (not l.cancel_sent || l.cancel_acknowledged) l _ _ (classified-status l r)
        (receive-KeepsCancel t.read t l s)

  pub await-KeepsCancel :
      (t : Turn) (l : Waiting) (s : Supervisor) → KeepsCancel l (await g c d t l s)
  unfolding await
  await-KeepsCancel t l s =
      if-KeepsCancel (l.cancel_sent && leb l.grace t.now) l _ _ tt
        (settle-KeepsCancel (find_pending c s.pending) t l s)
