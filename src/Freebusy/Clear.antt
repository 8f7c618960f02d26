-- ===== src/Freebusy/Clear.antt =====
-- What e2k_freebusy_clear_interval of server/lib/e2k-freebusy.c removes, and what it leaves.
use evolution_exchange.Prelude.{
  ℕ, ◌<◌, ◌≤◌, ◌≡◌, refl, ap, sym, ◌∙◌, true, false, ◌||◌, Bool-cases, inl, inr, List, [], ◌∷◌, ltb,
  leb, if◌then◌else◌, All, arith, ◌⊎◌,
}
use evolution_exchange.Freebusy.{
  Event, BusyStatus, Freebusy, truncate, clear_events, clear_interval,
}
use evolution_exchange.Freebusy.Cover.{within, covers}

-- Outside the interval an event that reaches into it covers the same times as before, if it is kept.
truncate_outside :
    (s e a b t : ℕ)
    → s ≤ e
    → (ltb b s || ltb e a) ≡ false
    → within s e t ≡ false
    → within (if ltb s a then e else a) (if ltb b e then s else b) t ≡ within a b t
truncate_outside s e a b t h k l = ground arith

removed : (a b t : ℕ) → leb b a ≡ true → within a b t ≡ false
removed a b t h = ground arith

covers-clear_events :
    (s e : ℕ) (es : List Event) (t : ℕ)
    → s ≤ e
    → within s e t ≡ false
    → covers (clear_events s e es) t ≡ covers es t
unfolding clear_events truncate
covers-clear_events s e [] t h k = refl
covers-clear_events s e (x ∷ es) t h k = elim (Bool-cases (ltb x.end s || ltb e x.start)) [
  | inl l ↦ rw l (ap (λ c. within x.start x.end t || c) (covers-clear_events s e es t h k))
  | inr l ↦
      rw l
        (elim (Bool-cases
          (leb (if ltb x.end e then s else x.end) (if ltb s x.start then e else x.start))) [
            | inl m ↦ rw m (
                covers-clear_events s e es t h k
                ∙ ap (λ c. c || covers es t)
                    (sym (sym (truncate_outside s e x.start x.end t h l k) ∙ removed _ _ t m)))
            | inr m ↦ rw m (
                ap (λ c. c || covers (clear_events s e es) t)
                  (truncate_outside s e x.start x.end t h l k)
                ∙ ap (λ c. within x.start x.end t || c) (covers-clear_events s e es t h k))
          ])
]

-- Clearing an interval that does not end before it starts leaves the times outside of it as they
-- were, under every status.
pub covers-clear_interval :
    (fb : Freebusy) (b : BusyStatus) (start end t : ℕ)
    → start ≤ end
    → within start end t ≡ false
    → covers ((clear_interval fb start end).events b) t ≡ covers (fb.events b) t
unfolding clear_interval
covers-clear_interval fb b start end t h k = covers-clear_events start end (fb.events b) t h k

not_less : (a b : ℕ) → b ≤ a → ltb a b ≡ false
not_less a b h = ground arith

more : (a b : ℕ) → a < b → leb b a ≡ false
more a b h = ground arith

-- A status's only event is not changed by clearing an interval, if it reaches to both bounds of
-- the interval or beyond them.
pub clear_interval-keeps :
    (fb : Freebusy) (b : BusyStatus) (start end : ℕ) (x : Event)
    → fb.events b ≡ x ∷ []
    → start < end
    → x.start ≤ start
    → end ≤ x.end
    → (clear_interval fb start end).events b ≡ x ∷ []
unfolding clear_interval clear_events truncate
clear_interval-keeps fb b start end x e h k l =
    ap (clear_events start end) e
    ∙ (rw
        (
          not_less x.end start (omega arith),
          not_less end x.start (omega arith),
          not_less x.end end l,
          not_less start x.start k,
          more x.start x.end (omega arith),
        )
        refl)

-- Events that stick out of the interval on one side at most.
abbrev pub AreShort : ℕ → ℕ → List Event → Type 0
AreShort s e = All (λ evt. (s < evt.start) ⊎ (evt.end < e))

inside_after :
    (s e a b t : ℕ)
    → (s < a) ⊎ (b < e)
    → within s e t ≡ true
    → within (if ltb s a then e else a) (if ltb b e then s else b) t ≡ false
inside_after s e a b t (inl h) k = ground arith
inside_after s e a b t (inr h) k = ground arith

away : (s e a b t : ℕ) → (ltb b s || ltb e a) ≡ true → within s e t ≡ true → within a b t ≡ false
away s e a b t h k = ground arith

cleared :
    (s e : ℕ) (es : List Event) (t : ℕ)
    → AreShort s e es
    → within s e t ≡ true
    → covers (clear_events s e es) t ≡ false
unfolding clear_events truncate
cleared s e [] t h k = refl
cleared s e (x ∷ es) t h k = elim (Bool-cases (ltb x.end s || ltb e x.start)) [
  | inl l ↦ rw (l, away s e x.start x.end t l k) (cleared s e es t h.1 k)
  | inr l ↦
      rw l
        (elim (Bool-cases
          (leb (if ltb x.end e then s else x.end) (if ltb s x.start then e else x.start))) [
            | inl m ↦ rw m (cleared s e es t h.1 k)
            | inr m ↦ rw m (
                ap (λ c. c || covers (clear_events s e es) t)
                  (inside_after s e x.start x.end t h.0 k)
                ∙ cleared s e es t h.1 k)
          ])
]

-- Clearing an interval leaves no time in it busy, if each event sticks out of it on one side at
-- most, under every status.
clear_interval-AreShort :
    (fb : Freebusy) (b : BusyStatus) (start end t : ℕ)
    → AreShort start end (fb.events b)
    → within start end t ≡ true
    → covers ((clear_interval fb start end).events b) t ≡ false
unfolding clear_interval
clear_interval-AreShort fb b start end t h k = cleared start end (fb.events b) t h k
