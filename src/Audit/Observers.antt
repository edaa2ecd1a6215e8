-- ===== src/Audit/Observers.antt =====
-- internal/audit/file.go and http.go: what the observers do with an event, and what the audit's file
-- holds in the end.
use shortener.Base.{
  ℕ, suc, String, Bool, true, false, not, ◌&&◌, ◌||◌, ◌==◌, ◌≡◌, refl, ap, ◌∙◌, sym, Option, none,
  some, List, [], ◌∷◌, ◌++◌, if◌then◌else◌, arith, leb, Bool-cases, inl, inr,
}
use text.Mathlib.TextLemmas.{append_assoc, append-nil, nil-append}
use shortener.Http.Sending.{joined}
use shortener.Base.Lists.{length}
use shortener.Base.Text.{◌+s◌}
use shortener.Errors.{Result, ok, err}
use shortener.Models.{AuditEvent}
use shortener.Audit.{Observer, file_observer, http_observer, Task, Audit, Reach, notify_all}
use shortener.Audit.Counts.{count, count-append, all_tasks}
use shortener.Audit.Delivery.{Work-same}
use shortener.Audit.Draining.{Works, rest, next, notify_all-Delivered}

-- Notify of a fileAuditObserver, on the text of its file: json.Marshal, and what a write that fails
-- leaves at the end of the file, or `none` where it works
unfoldable pub notify_file :
    (AuditEvent → Result String) → Option String → AuditEvent → String → String
notify_file marshal fails event content = elim (marshal event) [
  | err e ↦ content
  | ok data' ↦ elim fails [ none ↦ content +s (data' +s "\n") | some part ↦ content +s part ]
]

-- Notify of an httpAuditObserver: the bodies that client.Post was called with, and whether an error
-- is logged; `post` is client.Post with the status of its answer. The client of
-- NewHTTPAuditObserver may send one body up to four times.
unfoldable pub notify_http :
    (AuditEvent → Result String)
    → (String → Result ℕ)
    → AuditEvent
    → List String
    → List String × Bool
notify_http marshal post event posted = elim (marshal event) [
  | err e ↦ (posted, true)
  | ok data' ↦ elim (post data') [
    | err e ↦ (posted ++ data' ∷ [], true)
    | ok status ↦ (posted ++ data' ∷ [], not (leb 200 status) || leb 300 status)
  ]
]

abbrev pub is_file : String → Observer → Bool
is_file path (file_observer p) = p == path
is_file path (http_observer url) = false

module _ (encode : AuditEvent → String) (path : String) where
  -- The file that had a content when NewFileAuditObserver opened it to append to it, after the tasks
  -- that are done, the newest first, where encoding and writing work, and so no Notify of it panics.
  unfoldable pub file_after : String → List Task → String
  unfolding notify_file
  file_after before [] = before
  file_after before (t ∷ ts) =
      let content = file_after before ts in
      if is_file path t.observer
      then notify_file (λ e. ok (encode e)) none t.event content
      else content

  -- The lines of the tasks for the file.
  abbrev pub lines_of : List Task → List String
  lines_of [] = []
  lines_of (t ∷ ts) =
      let lines = lines_of ts in
      if is_file path t.observer then lines ++ (encode t.event +s "\n") ∷ [] else lines

  joined-last : (ls : List String) (l : String) → joined (ls ++ l ∷ []) ≡ joined ls +s l
  joined-last [] l = append-nil l ∙ sym (nil-append l)
  joined-last (x ∷ ls) l = ap (λ y. x +s y) (joined-last ls l) ∙ sym (append_assoc x (joined ls) l)

  file_after-joined :
      (before : String) (ts : List Task) → file_after before ts ≡ before +s joined (lines_of ts)
  unfolding file_after notify_file
  file_after-joined before [] = sym (append-nil before)
  file_after-joined before (t ∷ ts) = elim (Bool-cases (is_file path t.observer)) [
    | inr other ↦ rw (other, file_after) (file_after-joined before ts)
    | inl file ↦
        let line = encode t.event +s "\n" in
        rw (file, file_after)
          (ap (λ y. y +s line) (file_after-joined before ts)
            ∙ append_assoc before (joined (lines_of ts)) line
            ∙ ap (λ y. before +s y) (sym (joined-last (lines_of ts) line)))
  ]

  abbrev pub count_lines : (String → Bool) → List String → ℕ
  count_lines q [] = 0
  count_lines q (l ∷ ls) = let rest = count_lines q ls in if q l then suc rest else rest

  abbrev pub count_events : (AuditEvent → Bool) → List AuditEvent → ℕ
  count_events q [] = 0
  count_events q (e ∷ es) = let rest = count_events q es in if q e then suc rest else rest

  -- How often the file is among the observers.
  abbrev pub occurrences : List Observer → ℕ
  occurrences [] = 0
  occurrences (o ∷ os) = let rest = occurrences os in if is_file path o then suc rest else rest

  module _ (q : String → Bool) where
    abbrev line_of : AuditEvent → Bool
    line_of e = q (encode e +s "\n")

    abbrev writes : Task → Bool
    writes t = is_file path t.observer && line_of t.event

    count_lines-last :
        (ls : List String) (l : String)
        → count_lines q (ls ++ l ∷ []) ≡ (if q l then suc (count_lines q ls) else count_lines q ls)
    count_lines-last [] l = ground arith
    count_lines-last (x ∷ ls) l = ground (arith, count_lines-last ls l)

    count-lines_of : (ts : List Task) → count_lines q (lines_of ts) ≡ count writes ts
    count-lines_of [] = refl
    count-lines_of (t ∷ ts) =
        ground (arith, count-lines_of ts, count_lines-last (lines_of ts) (encode t.event +s "\n"))

    count-notify_all :
        (os : List Observer) (e : AuditEvent) (g : ℕ)
        → count writes (notify_all os e g) ≡ (if line_of e then occurrences os else 0)
    unfolding notify_all
    count-notify_all [] e g = ground arith
    count-notify_all (o ∷ os) e g = ground (arith, count-notify_all os e g)

    count-all_tasks :
        (os : List Observer) (es : List AuditEvent)
        → occurrences os ≡ 1
        → count writes (all_tasks os es) ≡ count_events line_of es
    count-all_tasks os [] once = refl
    count-all_tasks os (e ∷ es) once = ground (
      arith,
      count-append writes (notify_all os e (length es)) (all_tasks os es),
      count-notify_all os e (length es),
      count-all_tasks os es once,
    )

pub Works-same :
    {n : ℕ} {s s' : Audit} → Works n s s' → (s'.observers ≡ s.observers) × (s'.events ≡ s.events)
Works-same rest = (refl, refl)
Works-same (next w ws) =
    let (observers, events) = Work-same w in
    let (observers', events') = Works-same ws in (observers' ∙ observers, events' ∙ events)

-- The file has what it had before, and then exactly the lines of the events, each as often as it was
-- asked for.
abbrev pub IsLogged : (AuditEvent → String) → String → String → List AuditEvent → List Task → Type 0
IsLogged encode path before events done =
    (lines : List String) × (file_after encode path before done ≡ before +s joined lines)
    × ((q : String → Bool)
        → count_lines encode path q lines
          ≡ count_events encode path (λ e. q (encode e +s "\n")) events)

-- From a reachable state whose channel is open, and with the file among the observers once,
-- wherever senders and workers have come to, they can go on to a state after which the audit's
-- file, where encoding and writing work, holds what it held when it was opened and after that
-- exactly the lines of the events that NotifyAll was called with, each as often as it was.
pub file_after-IsLogged :
    (encode : AuditEvent → String) (path before : String) (s : Audit) (m : ℕ) (s' : Audit)
    → Reach s
    → s.closed ≡ false
    → occurrences encode path s.observers ≡ 1
    → Works m s s'
    → (m' : ℕ) × (s'' : Audit) × Works m' s' s'' × IsLogged encode path before s.events s''.done
file_after-IsLogged encode path before s m s' r live once ws =
    let (bound, m', s'', more, delivered) = notify_all-Delivered s m s' r live ws in
    let (observers, events) = Works-same ws in
    let (observers', events') = Works-same more in
    (
      m',
      s'',
      more,
      (
        lines_of encode path s''.done,
        file_after-joined encode path before s''.done,
        λ q.
            count-lines_of encode path q s''.done
            ∙ delivered (writes encode path q)
            ∙ count-all_tasks encode path q s''.observers s''.events
                (ap (occurrences encode path) (observers' ∙ observers) ∙ once)
            ∙ ap (count_events encode path (λ e. q (encode e +s "\n"))) (events' ∙ events),
      ),
    )
