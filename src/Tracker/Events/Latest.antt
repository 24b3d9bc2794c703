-- ===== src/Tracker/Events/Latest.antt =====
-- The latest event of a kind: getLatestEventByKind of src/db/tracker-events.ts.
use nano_symphony.Common.{
  ℕ, ◌≤◌, String, ◌≡◌, refl, inl, inr, Bool, ◌&&◌, Option, none, some, List, [], ◌∷◌, ◌++◌, arith,
  ◌==◌, if◌then◌else◌, Bool-cases, keep, All, All-keep,
}
use nano_symphony.Json.{Json}
use nano_symphony.Tracker.Types.{Event, Database}
use nano_symphony.Tracker.Events.{record_event, is_of, later, latest_from, get_latest_event_by_kind}

-- no event of the list is later than the time
abbrev pub IsPast : ℕ → List Event → Type 0
IsPast now es = All (λ e. e.ts ≤ now) es

latest_from-snoc :
    (best : Option Event) (es : List Event) (e : Event)
    → latest_from best (es ++ e ∷ []) ≡ later (latest_from best es) e
unfolding latest_from
latest_from-snoc best [] e = refl
latest_from-snoc best (x ∷ es) e = latest_from-snoc (later best x) es e

abbrev PastOption : ℕ → Option Event → Type 0
PastOption now none = Unit
PastOption now (some e) = e.ts ≤ now

later_past : (now : ℕ) (x e : Event) → x.ts ≤ now → e.ts ≤ now → PastOption now (later (some x) e)
unfolding later
later_past now x e a b = ground arith

latest_from-past :
    (now : ℕ) (best : Option Event) (es : List Event)
    → PastOption now best
    → IsPast now es
    → PastOption now (latest_from best es)
unfolding latest_from
latest_from-past now best [] b h = b
latest_from-past now none (e ∷ es) b h = latest_from-past now (some e) es h.0 h.1
latest_from-past now (some x) (e ∷ es) b h =
    latest_from-past now (later (some x) e) es (later_past now x e b h.0) h.1

later_of_past :
    (now : ℕ) (best : Option Event) (e : Event)
    → PastOption now best
    → now ≤ e.ts
    → later best e ≡ some e
unfolding later
later_of_past now none e b h = refl
later_of_past now (some x) e b h = ground arith

keep-snoc {ℓ} :
    {A : Type ℓ} (p : A → Bool) (xs : List A) (x : A)
    → keep p (xs ++ x ∷ []) ≡ (if p x then keep p xs ++ x ∷ [] else keep p xs)
keep-snoc p [] x = refl
keep-snoc p (y ∷ xs) x = elim (Bool-cases (p y)) [
  | inl e ↦ elim (Bool-cases (p x)) [
    | inl f ↦ rw (e, f, keep-snoc p xs x, f)
    | inr f ↦ rw (e, f, keep-snoc p xs x, f)
  ]
  | inr e ↦ rw e (keep-snoc p xs x)
]

-- With a clock that does not go back, an event that is recorded is the latest of its kind, and the latest
-- of every other kind or issue stays what it was.
pub get_latest_event_by_kind-record_event :
    (id : String) (now : ℕ) (u k m : String) (p : Option Json) (v j : String) (d : Database)
    → IsPast now d.events
    → get_latest_event_by_kind v j (record_event id now u k m p d) ≡ (
        if u == v && k == j
        then some
            (record { id = id; issue_uuid = u; ts = now; kind = k; message = m; payload_json = p })
        else get_latest_event_by_kind v j d)
unfolding get_latest_event_by_kind record_event
get_latest_event_by_kind-record_event id now u k m p v j d past =
    let e : Event = record {
      id = id;
      issue_uuid = u;
      ts = now;
      kind = k;
      message = m;
      payload_json = p;
    } in
    let old =
      latest_from-past now none (keep (is_of v j) d.events) tt
        (All-keep _ (is_of v j) d.events past) in
    elim (Bool-cases (u == v && k == j)) [
      | inl t ↦
          rw
            (
              keep-snoc (is_of v j) d.events e,
              t,
              latest_from-snoc none (keep (is_of v j) d.events) e,
            )
            (later_of_past now (latest_from none (keep (is_of v j) d.events)) e old (omega arith))
      | inr t ↦ rw (keep-snoc (is_of v j) d.events e, t)
    ]
