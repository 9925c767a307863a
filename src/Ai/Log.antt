-- ===== src/Ai/Log.antt =====
-- kernel/ai_kernel.c: `ai_get_log` and the ring buffer it reads.
use mathlib.Core.List.{reverse, reverse_aux}
use prajna_os.Base.{
  ℕ, zero, suc, ◌+◌, ◌-◌, ◌%◌, ◌^◌, ◌≤◌, ◌<◌, ◌≡◌, refl, arith, ◌∙◌, ap, List, [], ◌∷◌, false,
  if◌then◌else◌, set, get_elem?, Option, some, length, ltb, leb, u8, take, length-set, map, drop,
  get_elem?-set_self, get_elem?-set_ne, drop-get_elem?,
}
use Prim.Native.Nat.{min}
use prajna_os.Ai.{Event, EventLog, event_log_size}
use prajna_os.Ai.Act.{log_event}

-- The loop: entry `i` of `out`, for `left` more entries. `none` is a slot outside the array.
unfoldable pub log_entries : ℕ → ℕ → EventLog → List (Option Event)
log_entries zero i l = []
log_entries (suc left) i l =
    get_elem? l.event_log (u8 ((l.event_index + event_log_size - 1 - i) % event_log_size))
    ∷ log_entries left (i + 1) l

-- The number of entries in use.
abbrev pub total : EventLog → ℕ
total l = if l.event_filled then event_log_size else l.event_index

unfoldable pub ai_get_log : EventLog → ℕ → List (Option Event)
unfolding log_entries
ai_get_log l count = log_entries (if ltb (total l) count then total l else count) 0 l

-- The log holds the events `recent`, newest first: the slots behind the index hold the last 20.
pub record Holds (l : EventLog) (recent : List Event) : Type 0 where
  pub sized : length l.event_log ≡ event_log_size
  pub index : l.event_index ≡ length recent % event_log_size
  pub filled : l.event_filled ≡ leb event_log_size (length recent)
  pub slots :
      (i : ℕ)
      → i < event_log_size
      → i < length recent
      → get_elem? l.event_log ((l.event_index + 19 - i) % 20) ≡ get_elem? recent i

pub log_event-Holds :
    {l : EventLog} {recent : List Event} (ev : Event)
    → Holds l recent
    → Holds (log_event l ev) (ev ∷ recent)
unfolding log_event
log_event-Holds {l} {recent} ev v = record {
  sized = length-set l.event_log l.event_index ev ∙ v.sized;
  index = omega (arith, v.index);
  filled = ground (arith, v.index, v.filled);
  slots = slots;
}
  where
    slots :
        (i : ℕ)
        → i < event_log_size
        → i < suc (length recent)
        → get_elem?
            (set l.event_log l.event_index ev)
            (((l.event_index + 1) % 20 % 2 ^ 8 + 19 - i) % 20)
          ≡ get_elem? (ev ∷ recent) i
    slots zero a b =
        let e : ((l.event_index + 1) % 20 % 2 ^ 8 + 19 - 0) % 20 ≡ l.event_index =
          omega (arith, v.index) in
        rw e (get_elem?-set_self l.event_log l.event_index ev (omega (arith, v.index, v.sized)))
    slots (suc i) a b =
        let e : ((l.event_index + 1) % 20 % 2 ^ 8 + 19 - suc i) % 20
            ≡ (l.event_index + 19 - i) % 20 =
          omega (arith, v.index) in
        rw e (
          get_elem?-set_ne l.event_log l.event_index ((l.event_index + 19 - i) % 20) ev
            (omega (arith, v.index))
          ∙ v.slots i (omega arith) (omega arith))

log_entries-Holds :
    (left i : ℕ) {l : EventLog} {recent : List Event}
    → Holds l recent
    → i + left ≤ event_log_size
    → i + left ≤ length recent
    → log_entries left i l ≡ map some (take left (drop i recent))
unfolding log_entries
log_entries-Holds zero i v h k = refl
log_entries-Holds (suc left) i {l} {recent} v h k =
    let (x, at_i, rest) = drop-get_elem? recent i (omega arith) in
    let slot : (l.event_index + 20 - 1 - i) % 20 % 2 ^ 8 ≡ (l.event_index + 19 - i) % 20 =
      omega arith in
    let next : suc i ≡ i + 1 = omega arith in
    rw (rest, slot, v.slots i (omega arith) (omega arith), at_i, next)
      (ap (◌∷◌ (some x)) (log_entries-Holds left (i + 1) v (omega arith) (omega arith)))

-- `ai_get_log` returns the last `count` events, newest first, or all that the log still has: it keeps
-- the last 20.
pub ai_get_log-Holds :
    {l : EventLog} {recent : List Event} (count : ℕ)
    → Holds l recent
    → ai_get_log l count ≡ map some (take (min count (min 20 (length recent))) recent)
unfolding ai_get_log
ai_get_log-Holds {l} {recent} count v =
    let n : (if ltb (total l) count then total l else count) ≡ min count (min 20 (length recent)) =
      ground (arith, v.index, v.filled) in
    rw n (log_entries-Holds (min count (min 20 (length recent))) 0 v (omega arith) (omega arith))

-- The log after a sequence of decisions, oldest first.
abbrev pub log_all : EventLog → List Event → EventLog
log_all l [] = l
log_all l (e ∷ es) = log_all (log_event l e) es

log_all-Holds :
    (es : List Event) {l : EventLog} {recent : List Event}
    → Holds l recent
    → Holds (log_all l es) (reverse_aux es recent)
log_all-Holds [] v = v
log_all-Holds (e ∷ es) v = log_all-Holds es (log_event-Holds e v)

-- The log before the first decision: 20 zero entries.
empty_log-Holds :
    (log : List Event)
    → length log ≡ event_log_size
    → Holds (record { event_log = log; event_index = 0; event_filled = false }) []
empty_log-Holds log h = record {
  sized = h;
  index = refl;
  filled = refl;
  slots = λ i a b. absurd (omega arith);
}

-- Whatever decisions were logged since boot in a log of 20 entries, `ai_get_log` returns the newest
-- `count` of them, newest first, as far as the last 20 reach.
pub ai_get_log-log_all :
    (log es : List Event) (count : ℕ)
    → length log ≡ event_log_size
    → let l = log_all (record { event_log = log; event_index = 0; event_filled = false }) es in
      ai_get_log l count ≡ map some (take (min count (min 20 (length (reverse es)))) (reverse es))
ai_get_log-log_all log es count h =
    ai_get_log-Holds count (log_all-Holds es (empty_log-Holds log h))
