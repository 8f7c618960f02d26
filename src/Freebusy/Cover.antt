-- ===== src/Freebusy/Cover.antt =====
-- Which times the events of server/lib/e2k-freebusy.c cover.
use evolution_exchange.Prelude.{
  ℕ, ◌<◌, ◌≤◌, ◌≡◌, refl, ap, sym, ◌∙◌, Bool, true, false, ◌&&◌, ◌||◌, Bool-cases, inl, inr, List,
  [], ◌∷◌, ltb, leb, if◌then◌else◌, All, arith,
}
use evolution_exchange.Freebusy.{
  Event, BusyStatus, free, tentative, busy, oof, Freebusy, merge_from, merge_events, add_event,
  add_interval, add_clipped, min_time, max_time, same_status,
}

-- From the start on and before the end.
abbrev pub within : ℕ → ℕ → ℕ → Bool
within start end t = leb start t && ltb t end

abbrev pub covers : List Event → ℕ → Bool
covers [] t = false
covers (evt ∷ rest) t = within evt.start evt.end t || covers rest t

-- Events do not end before they start.
abbrev pub AreEvents : List Event → Type 0
AreEvents = All (λ evt. evt.start ≤ evt.end)

union :
    (a b s e t : ℕ)
    → a ≤ b
    → s < e
    → s ≤ b
    → a ≤ e
    → within (min_time a s) (max_time b e) t ≡ (within a b t || within s e t)
union a b s e t h k l m = ground arith

or_false : (a : Bool) → (a || false) ≡ a
or_false true = refl
or_false false = refl

or_turn : (a b : Bool) → (a || b) ≡ (b || a)
or_turn true true = refl
or_turn true false = refl
or_turn false true = refl
or_turn false false = refl

or_group : (a b c : Bool) → (a || (b || c)) ≡ ((a || b) || c)
or_group true b c = refl
or_group false b c = refl

or_swap : (a b c : Bool) → ((a || b) || c) ≡ ((a || c) || b)
or_swap true b c = refl
or_swap false b c = or_turn b c

leb→le : (a b : ℕ) → leb a b ≡ true → a ≤ b
leb→le a b h = ground arith

leb→lt_false : (a b : ℕ) → leb a b ≡ false → b < a
leb→lt_false a b h = ground arith

ltb→le_false : (a b : ℕ) → ltb a b ≡ false → b ≤ a
ltb→le_false a b h = ground arith

covers-add_event :
    (s e : ℕ) (es : List Event) (t : ℕ)
    → s < e
    → AreEvents es
    → covers (add_event s e es) t ≡ (covers es t || within s e t)
unfolding add_event
covers-add_event s e [] t h k = (or_false (within s e t))
covers-add_event s e (x ∷ es) t h k = elim (Bool-cases (leb s x.end)) [
  | inl l ↦ rw l (elim (Bool-cases (ltb e x.start)) [
    | inl m ↦ rw m (or_turn (within s e t) (within x.start x.end t || covers es t))
    | inr m ↦ rw m (
        ap (λ b. b || covers es t)
          (union x.start x.end s e t k.0 h (leb→le s x.end l) (ltb→le_false e x.start m))
        ∙ or_swap (within x.start x.end t) (within s e t) (covers es t))
  ])
  | inr l ↦ rw l (
      ap (λ b. within x.start x.end t || b) (covers-add_event s e es t h k.1)
      ∙ or_group (within x.start x.end t) (covers es t) (within s e t))
]

-- Both bounds are clipped to the range.
clip :
    (a b s e t : ℕ)
    → within (if ltb s a then a else s) (if ltb b e then b else e) t
      ≡ (within s e t && within a b t)
clip a b s e t = ground arith

empty : (s e t : ℕ) → leb e s ≡ true → within s e t ≡ false
empty s e t h = ground arith

covers-add_clipped :
    (fb : Freebusy) (b : BusyStatus) (s e t : ℕ)
    → AreEvents (fb.events b)
    → same_status b b ≡ true
    → covers ((add_clipped fb b s e).events b) t ≡ (covers (fb.events b) t || within s e t)
unfolding add_clipped
covers-add_clipped fb b s e t k same = elim (Bool-cases (leb e s)) [
  | inl h ↦ rw (h, empty s e t h) (sym (or_false (covers (fb.events b) t)))
  | inr h ↦ rw (h, same) (covers-add_event s e (fb.events b) t (leb→lt_false e s h) k)
]

-- Each status but FREE.
abbrev pub IsBusy : BusyStatus → Type 0
IsBusy free = ⊥
IsBusy _ = Unit {0}

-- Adding an interval under a status other than FREE makes exactly the times of the interval that
-- lie in the range busy, besides those that were, where no event ended before it started.
pub covers-add_interval :
    (fb : Freebusy) (b : BusyStatus) (start end t : ℕ)
    → IsBusy b
    → AreEvents (fb.events b)
    → covers ((add_interval fb b start end).events b) t
      ≡ (covers (fb.events b) t || (within start end t && within fb.start fb.end t))
unfolding add_interval
covers-add_interval fb free start end t h k = absurd h
covers-add_interval fb tentative start end t h k =
    covers-add_clipped fb tentative _ _ t k refl
    ∙ ap (λ c. covers (fb.events tentative) t || c) (clip fb.start fb.end start end t)
covers-add_interval fb busy start end t h k =
    covers-add_clipped fb busy _ _ t k refl
    ∙ ap (λ c. covers (fb.events busy) t || c) (clip fb.start fb.end start end t)
covers-add_interval fb oof start end t h k =
    covers-add_clipped fb oof _ _ t k refl
    ∙ ap (λ c. covers (fb.events oof) t || c) (clip fb.start fb.end start end t)

before_end : (a b t : ℕ) → b ≤ t → within a b t ≡ false
before_end a b t h = ground arith

in_range : (a b t : ℕ) → a ≤ t → t < b → within a b t ≡ true
in_range a b t h k = ground arith

reaches : (a b : ℕ) → a ≤ b → leb a b ≡ true
reaches a b h = ground arith

-- Of two events that overlap, the later end of the second one is lost by merge_events: it was
-- busy up to that end, and is not from the first event's end on.
pub merge_events-loses :
    (x y : Event) (t : ℕ)
    → y.start ≤ x.end
    → x.end ≤ t
    → t < y.end
    → (covers (x ∷ y ∷ []) t ≡ true) × (covers (merge_events (x ∷ y ∷ [])) t ≡ false)
unfolding merge_events merge_from
merge_events-loses x y t h k l = (
  rw (before_end x.start x.end t k, in_range y.start y.end t (omega arith) l) refl,
  rw (reaches y.start x.end h, before_end x.start x.end t k) refl,
)
