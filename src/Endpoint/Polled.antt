-- ===== src/Endpoint/Polled.antt =====
-- What the polls of the client machines leave of the queue, whatever the clients answer.
use openai_ipmi_proxy.Prelude.{
  ℕ, ◌≡◌, refl, arith, String, Bool, true, false, List, [], ◌∷◌, Option, none, some, if◌then◌else◌,
  string_eq, pair_eq, Bool-cases, inl, inr,
}
use openai_ipmi_proxy.Prelude.Dict.{lookup, has}
use openai_ipmi_proxy.Prelude.Value.{Value, Fields, object, get_field}
use openai_ipmi_proxy.Queue.State.{EndpointQueue, Session, Status}
use openai_ipmi_proxy.Queue.Admission.{set_session}
use openai_ipmi_proxy.Queue.Invariant.{IsValid}
use openai_ipmi_proxy.Queue.Validity.Write.{write-IsValid}
use openai_ipmi_proxy.Clients.Detect.{ChildrenKind, no_children, parent_chain}
use openai_ipmi_proxy.Clients.Poller.{StatusPoller, Pending, due, stamp}
use openai_ipmi_proxy.Endpoint.Polling.{
  Directories, share, place, locate, poll_session, report_session, report_directory, take_answers,
  take_report, take_status, status_of, pending_reason,
}
use openai_ipmi_proxy.Endpoint.Manager.{
  Pollers, Machine, Bases, Outside, poll_sessions, report_answers, report_directories, poll_due,
  poll_found, poll_machines,
}

-- What the poll of a client leaves of a session
record SameUse (s t : Session) : Type 0 where
  pub key : t.key ≡ s.key
  pub waiting_count : t.waiting_count ≡ s.waiting_count
  pub inflight : t.inflight ≡ s.inflight
  pub spot_held : t.spot_held ≡ s.spot_held

SameUse-refl : (s : Session) → SameUse s s
SameUse-refl s = record { key = refl; waiting_count = refl; inflight = refl; spot_held = refl }

SameUse-IsValid :
    (q : EndpointQueue) (r : ℕ) (t : Session)
    → SameUse (q.objects r) t
    → IsValid q
    → IsValid (set_session q r t)
SameUse-IsValid q r t same v =
    write-IsValid q r q.inflight_total t same.key same.waiting_count (omega (arith, same.inflight))
      same.spot_held v

module _ (attempt : Option Value → String) (reported : ℕ) where
  take_status-SameUse :
      (st : Fields) (status : Option Status) (s : Session)
      → SameUse s (take_status attempt reported st status s)
  unfolding take_status
  take_status-SameUse st none s = SameUse-refl s
  take_status-SameUse st (some status) s = record {
    key = refl;
    waiting_count = refl;
    inflight = refl;
    spot_held = refl;
  }

  take_report-SameUse :
      (o : Option Value) (s : Session) → SameUse s (take_report attempt reported o s)
  unfolding take_report
  take_report-SameUse (some (object st)) s =
      take_status-SameUse st (status_of (get_field "type" st)) s
  take_report-SameUse _ s = record {
    key = refl;
    waiting_count = refl;
    inflight = refl;
    spot_held = refl;
  }

  take_answers-SameUse :
      (statuses : Option Fields) (reason : Option String) (s : Session)
      → SameUse s (take_answers attempt reported statuses reason s)
  unfolding take_answers
  take_answers-SameUse statuses (some reason) s = record {
    key = refl;
    waiting_count = refl;
    inflight = refl;
    spot_held = refl;
  }
  take_answers-SameUse none none s = SameUse-refl s
  take_answers-SameUse (some statuses) none s =
      take_report-SameUse (get_field s.session_id statuses) s

  report_directory-IsValid :
      (statuses : Option Fields) (pending : Option Pending) (rs : List ℕ) (q : EndpointQueue)
      → IsValid q
      → IsValid (report_directory attempt reported statuses pending rs q)
  unfolding report_directory
  report_directory-IsValid statuses pending [] q v = v
  report_directory-IsValid statuses pending (r ∷ rs) q v =
      report_directory-IsValid statuses pending rs _ (
        SameUse-IsValid q r _
          (unfold report_session in
            take_answers-SameUse statuses (pending_reason pending (q.objects r).session_id)
              (q.objects r))
          v)

share-IsValid :
    (kind : ChildrenKind) (base : String) (p : StatusPoller) (q : EndpointQueue) (r : ℕ)
    → IsValid q
    → IsValid (share kind base p q r)
unfolding share
share-IsValid parent_chain base p q r v =
    SameUse-IsValid q r _
      (record { key = refl; waiting_count = refl; inflight = refl; spot_held = refl }) v
share-IsValid no_children base p q r v =
    SameUse-IsValid q r _
      (record { key = refl; waiting_count = refl; inflight = refl; spot_held = refl }) v

locate-IsValid :
    (base : String) (info : Option (String × Option String)) (cached : Option String) (r : ℕ)
    (p : StatusPoller) (q : EndpointQueue) (by_dir : Directories)
    → IsValid q
    → IsValid (locate base info cached r (p, q, by_dir)).1
unfolding locate place
locate-IsValid base info (some directory) r p q by_dir v =
    share-IsValid p.provider.children_kind base p q r v
locate-IsValid base none none r p q by_dir v = v
locate-IsValid base (some (directory, parent)) none r p q by_dir v = share-IsValid _ base _ q r v

module _ (attempt : Option Value → String) (outside : Outside)
    (others : (base key : String) (q : EndpointQueue)
      → IsValid q
      → IsValid (outside.meanwhile base key q)) where
  seen-IsValid :
      (b : Bool) (base key : String) (q : EndpointQueue)
      → IsValid q
      → IsValid (if b then q else outside.meanwhile base key q)
  seen-IsValid true base key q v = v
  seen-IsValid false base key q v = others base key q v

  poll_sessions-IsValid :
      (base : String) (rs : List ℕ) (p : StatusPoller) (q : EndpointQueue) (by_dir : Directories)
      → IsValid q
      → IsValid (poll_sessions attempt outside base rs (p, q, by_dir)).1
  unfolding poll_sessions poll_session
  poll_sessions-IsValid base [] p q by_dir v = v
  poll_sessions-IsValid base (r ∷ rs) p q by_dir v = poll_sessions-IsValid base rs _ _ _ (
      locate-IsValid base _ _ r p _ by_dir (
        seen-IsValid (has (base, (q.objects r).session_id) p.session_dir) base
          (q.objects r).session_id q v))

  report_answers-IsValid :
      (reported : ℕ) (rs : List ℕ) (q : EndpointQueue) (statuses : Option Fields)
      (pending : Option Pending)
      → IsValid q
      → IsValid (report_answers attempt outside reported rs q statuses pending)
  report_answers-IsValid reported rs q none none v = v
  report_answers-IsValid reported rs q (some statuses) pending v =
      report_directory-IsValid attempt reported (some statuses) pending rs q v
  report_answers-IsValid reported rs q none (some pending) v =
      report_directory-IsValid attempt reported none (some pending) rs q v

  report_directories-IsValid :
      (base : String) (by_dir : Directories) (q : EndpointQueue)
      → IsValid q
      → IsValid (report_directories attempt outside base by_dir q)
  unfolding report_directories
  report_directories-IsValid base [] q v = v
  report_directories-IsValid base ((directory, rs) ∷ by_dir) q v =
      report_directories-IsValid base by_dir _ (
        report_answers-IsValid _ rs _ (outside.statuses base directory)
          (outside.pending base directory) (others base directory q v))

  poll_found-IsValid :
      (now : ℕ) (machine : Machine) (rs : List ℕ) (pollers : Pollers) (q : EndpointQueue)
      (found : Option StatusPoller)
      → IsValid q
      → IsValid (poll_found attempt outside now machine rs pollers q found).1
  unfolding poll_due
  poll_found-IsValid now machine rs pollers q none v = v
  poll_found-IsValid now machine rs pollers q (some p) v = elim (Bool-cases (due p machine.1 now)) [
    | inl is_due ↦ rw is_due (
        let stamped = stamp p machine.1 (outside.polled_at machine.1) in
        report_directories-IsValid machine.1
          (poll_sessions attempt outside machine.1 rs (stamped, q, [])).2 _
          (poll_sessions-IsValid machine.1 rs stamped q [] v))
    | inr early ↦ rw early v
  ]

  pub poll_machines-IsValid :
      (now : ℕ) (bases : Bases) (pollers : Pollers) (q : EndpointQueue)
      → IsValid q
      → IsValid (poll_machines attempt outside now bases pollers q).1
  unfolding poll_machines
  poll_machines-IsValid now [] pollers q v = v
  poll_machines-IsValid now ((machine, rs) ∷ bases) pollers q v =
      poll_machines-IsValid now bases _ _
        (poll_found-IsValid now machine rs pollers q (lookup machine.0 pollers) v)
