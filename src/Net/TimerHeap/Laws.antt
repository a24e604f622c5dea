-- ===== src/Net/TimerHeap/Laws.antt =====
-- The order of the timers, where their times are those of an int64 from 1970 on.
use gcluster.Common.{
  ℕ, ◌^◌, ◌<◌, ◌≡◌, ◌∙◌, sym, ap, Bool, false, arith, ltb, ◌==◌, refl, if◌then◌else◌,
}
use gcluster.Common.Int.{
  ℤ, pos, negsuc, pos_part, neg_part, ◌-ℤ◌, ◌≤ℤ◌, IsInt64, wrap64-eq_of_IsInt64, eqb_ℤ, ltb_ℤ,
  leb_ℤ,
}
use gcluster.Net.TimerHeap.{Timer, heap_less}

-- A time that time.Time.UnixNano gives after 1970.
abbrev pub IsTime : ℤ → Type 0
IsTime t = (neg_part t ≡ 0) × (pos_part t < 2 ^ 63)

difference-IsInt64 : (a b : ℤ) → IsTime a → IsTime b → IsInt64 (a -ℤ b)
unfolding ◌-ℤ◌
difference-IsInt64 (pos a) (pos b) ha hb = ground (arith, ha, hb)
difference-IsInt64 (pos a) (negsuc b) ha hb = absurd (omega (arith, hb))
difference-IsInt64 (negsuc a) b ha hb = absurd (omega (arith, ha))

nonneg : (n : ℤ) (c : Bool) → (if eqb_ℤ n (pos 0) then c else ltb_ℤ n (pos 0)) ≡ false → pos 0 ≤ℤ n
unfolding ltb_ℤ eqb_ℤ leb_ℤ
nonneg n c h = ground (arith, h)

le_of_difference : (a b : ℤ) → pos 0 ≤ℤ a -ℤ b → b ≤ℤ a
unfolding ◌-ℤ◌
le_of_difference a b h = ground (arith, h)

-- A timer that is not before another is not due before it.
pub heap_less_false :
    (t other : Timer)
    → IsTime t.expire_at
    → IsTime other.expire_at
    → heap_less t other ≡ false
    → other.expire_at ≤ℤ t.expire_at
unfolding heap_less
heap_less_false t other h k e =
    let d = t.expire_at -ℤ other.expire_at in
    let same = wrap64-eq_of_IsInt64 d (difference-IsInt64 t.expire_at other.expire_at h k) in
    le_of_difference t.expire_at other.expire_at (
      nonneg d (ltb t.id other.id)
        (ap (λ n. if eqb_ℤ n (pos 0) then ltb t.id other.id else ltb_ℤ n (pos 0)) (sym same) ∙ e))

time-pos : (z : ℤ) → IsTime z → z ≡ pos (pos_part z)
time-pos (pos n) h = refl
time-pos (negsuc n) h = absurd (omega (arith, h))

difference_pos :
    (a b : ℕ) (c : Bool)
    → (if eqb_ℤ (pos a -ℤ pos b) (pos 0) then c else ltb_ℤ (pos a -ℤ pos b) (pos 0))
      ≡ (if a == b then c else ltb a b)
unfolding ◌-ℤ◌ eqb_ℤ ltb_ℤ leb_ℤ
difference_pos a b c = ground arith

-- HeapLess compares the times and, where they are equal, the identifiers.
pub heap_less-parts :
    (t other : Timer)
    → IsTime t.expire_at
    → IsTime other.expire_at
    → heap_less t other ≡ (
        if pos_part t.expire_at == pos_part other.expire_at
        then ltb t.id other.id
        else ltb (pos_part t.expire_at) (pos_part other.expire_at))
unfolding heap_less
heap_less-parts t other h k =
    let a = t.expire_at in
    let b = other.expire_at in
    ap (λ n. if eqb_ℤ n (pos 0) then ltb t.id other.id else ltb_ℤ n (pos 0))
      (wrap64-eq_of_IsInt64 (a -ℤ b) (difference-IsInt64 a b h k))
    ∙ ap (λ z. if eqb_ℤ (z -ℤ b) (pos 0) then ltb t.id other.id else ltb_ℤ (z -ℤ b) (pos 0))
        (time-pos a h)
    ∙ ap
        (λ z.
          if eqb_ℤ (pos (pos_part a) -ℤ z) (pos 0)
          then ltb t.id other.id
          else ltb_ℤ (pos (pos_part a) -ℤ z) (pos 0))
        (time-pos b k)
    ∙ difference_pos (pos_part a) (pos_part b) (ltb t.id other.id)
