-- ===== src/Net/Examples/Heaps.antt =====
-- A heap as a list of pointers with the timers that it compared last; the index of a pointer is itself.
use gcluster.Common.{
  ℕ, ◌≡◌, ◌≢◌, ◌∙◌, sym, ap, refl, Bool, true, false, Option, none, some, List, [], ◌∷◌, ◌==◌,
  length, arith, Bool-cases, Option-cases, inl, inr, if◌then◌else◌,
}
use gcluster.Common.Int.{pos, pos_part}
use gcluster.Net.TimerHeap.{Timer, Timers, HeapOps, heap_less}
use gcluster.Net.TimerHeap.Heap.{IsHeap}
use gcluster.Net.TimerHeap.Laws.{IsTime, heap_less-parts}

pub record Listed : Type 0 where
  pub keys : Timers
  pub items : List ℕ

abbrev pub contains : List ℕ → ℕ → Bool
contains [] x = false
contains (r ∷ rs) x = if r == x then true else contains rs x

abbrev pub without : ℕ → List ℕ → List ℕ
without r [] = []
without r (x ∷ xs) = let rest = without r xs in if r == x then rest else x ∷ rest

abbrev pub better : Timers → ℕ → Option ℕ → Option ℕ
better ts r none = some r
better ts r (some s) = if heap_less (ts s) (ts r) then some s else some r

abbrev pub first_of : Timers → List ℕ → Option ℕ
first_of ts [] = none
first_of ts (r ∷ rs) = better ts r (first_of ts rs)

abbrev pub ListHeap : HeapOps
ListHeap = record {
  Heap = Listed;
  new_heap = record {
    keys = λ _. record {
      id = 0;
      delay = pos 0;
      periodic = false;
      args = 0;
      cb = 0;
      expire_at = pos 0;
    };
    items = [];
  };
  len = λ h. length h.items;
  top = λ h. first_of h.keys h.items;
  index = λ h r. pos r;
  push = λ ts r h. record { keys = ts; items = r ∷ h.items };
  remove = λ ts i h. record { keys = ts; items = without (pos_part i) h.items };
  fix = λ ts i h. record { keys = ts; items = h.items };
}

pub contains-without :
    (r x : ℕ) (xs : List ℕ) → contains (without r xs) x ≡ (if r == x then false else contains xs x)
contains-without r x [] = ground arith
contains-without r x (y ∷ ys) = ground (arith, contains-without r x ys)

-- What is never before another is in an order.
not_less_trans :
    (a b c : Timer)
    → IsTime a.expire_at
    → IsTime b.expire_at
    → IsTime c.expire_at
    → heap_less a b ≡ false
    → heap_less b c ≡ false
    → heap_less a c ≡ false
not_less_trans a b c ha hb hc x y =
    ground
      (arith, heap_less-parts a b ha hb, heap_less-parts b c hb hc, heap_less-parts a c ha hc, x, y)

less_asym :
    (a b : Timer)
    → IsTime a.expire_at
    → IsTime b.expire_at
    → heap_less a b ≡ true
    → heap_less b a ≡ false
less_asym a b ha hb x = ground (arith, heap_less-parts a b ha hb, heap_less-parts b a hb ha, x)

less_irrefl : (a : Timer) → IsTime a.expire_at → heap_less a a ≡ false
less_irrefl a h = ground (arith, heap_less-parts a a h h)

abbrev AllTime : Timers → List ℕ → Type 0
AllTime ts xs = (x : ℕ) → contains xs x ≡ true → IsTime (ts x).expire_at

pub first_contained :
    (ts : Timers) (xs : List ℕ) (r : ℕ) → first_of ts xs ≡ some r → contains xs r ≡ true
first_contained ts [] r e = absurd (ground (arith, e))
first_contained ts (y ∷ ys) r e = elim (Option-cases (first_of ts ys)) [
  | inl k ↦ ground (arith, k, e)
  | inr (s, k) ↦ ground (arith, k, e, first_contained ts ys s k)
]

-- What is least in the rest of a list, and its first element.
better_least :
    (ts : Timers) (y s r : ℕ)
    → IsTime (ts y).expire_at
    → IsTime (ts s).expire_at
    → better ts y (some s) ≡ some r
    → (heap_less (ts y) (ts r) ≡ false)
      × (heap_less (ts s) (ts r) ≡ false)
      × IsTime (ts r).expire_at
better_least ts y s r hy hs e = elim (Bool-cases (heap_less (ts s) (ts y))) [
  | inl k ↦
      let same : s ≡ r = ground (arith, k, e) in
      rw (sym same) (less_asym (ts s) (ts y) hs hy k, less_irrefl (ts s) hs, hs)
  | inr k ↦ let same : y ≡ r = ground (arith, k, e) in rw (sym same) (less_irrefl (ts y) hy, k, hy)
]

better-some : (ts : Timers) (y : ℕ) (o : Option ℕ) → (r : ℕ) × (better ts y o ≡ some r)
better-some ts y none = (y, refl)
better-some ts y (some s) = elim (Bool-cases (heap_less (ts s) (ts y))) [
  | inl k ↦ (s, ground (arith, k))
  | inr k ↦ (y, ground (arith, k))
]

first_none : (ts : Timers) (xs : List ℕ) → first_of ts xs ≡ none → xs ≡ []
first_none ts [] e = refl
first_none ts (y ∷ ys) e =
    let (r, k) = better-some ts y (first_of ts ys) in absurd (ground (arith, e, k))

first_least :
    (ts : Timers) (xs : List ℕ) (r x : ℕ)
    → AllTime ts xs
    → first_of ts xs ≡ some r
    → contains xs x ≡ true
    → heap_less (ts x) (ts r) ≡ false
first_least ts [] r x a e h = absurd (ground (arith, h))
first_least ts (y ∷ ys) r x a e h =
    let hy = a y (ground arith) in
    let rest : AllTime ts ys = λ z k. a z (ground (arith, k)) in
    elim (Option-cases (first_of ts ys)) [
      | inl k ↦
          let only : ys ≡ [] = first_none ts ys k in
          let mine : y ≡ r = ground (arith, k, e) in
          let same : y ≡ x = ground (arith, h, ap (λ l. contains l x) only) in
          rw (sym mine, sym same) (less_irrefl (ts y) hy)
      | inr (s, k) ↦
          let hs = rest s (first_contained ts ys s k) in
          let (ly, ls, hr) = better_least ts y s r hy hs (ap (λ o. better ts y o) (sym k) ∙ e) in
          elim (Bool-cases (y == x)) [
            | inl m ↦ let same : y ≡ x = ground (arith, m) in rw (sym same) ly
            | inr m ↦
                let inner : contains ys x ≡ true = ground (arith, m, h) in
                not_less_trans (ts x) (ts s) (ts r) (a x h) hs hr
                  (first_least ts ys s x rest k inner) ls
          ]
    ]

-- The timers that were compared last are the timers as they are.
abbrev pub Agree : Timers → Listed → Type 0
Agree ts h = (x : ℕ) → contains h.items x ≡ true → (h.keys x ≡ ts x) × IsTime (ts x).expire_at

pub ListHeap-top_least :
    (ts : Timers) (h : Listed) (r x : ℕ)
    → Agree ts h
    → first_of h.keys h.items ≡ some r
    → contains h.items x ≡ true
    → heap_less (ts x) (ts r) ≡ false
ListHeap-top_least ts h r x a e k =
    let times : AllTime h.keys h.items = λ z m. let (same, time) = a z m in rw same time in
    let least = first_least h.keys h.items r x times e k in
    let (sx, _) = a x k in
    let (sr, _) = a r (first_contained h.keys h.items r e) in
    ap (λ z. heap_less z (ts r)) (sym sx) ∙ ap (λ z. heap_less (h.keys x) z) (sym sr) ∙ least

pub none_contained : (xs : List ℕ) (r : ℕ) → (length xs == 0) ≡ true → contains xs r ≡ false
none_contained [] r e = refl
none_contained (x ∷ xs) r e = absurd (ground (arith, e))

pub first_exists :
    (ts : Timers) (xs : List ℕ)
    → (length xs == 0) ≡ false
    → (r : ℕ) × (first_of ts xs ≡ some r) × (contains xs r ≡ true)
first_exists ts [] e = absurd (ground (arith, e))
first_exists ts (y ∷ ys) e =
    let (r, k) = better-some ts y (first_of ts ys) in (r, k, first_contained ts (y ∷ ys) r k)

pub first_found :
    (ts : Timers) (xs : List ℕ) (x : ℕ) → contains xs x ≡ true → (r : ℕ) × (first_of ts xs ≡ some r)
first_found ts [] x h = absurd (ground (arith, h))
first_found ts (y ∷ ys) x h = better-some ts y (first_of ts ys)

pub Agree-same :
    (ts ts' : Timers) (h : Listed)
    → Agree ts h
    → ((x : ℕ) → contains h.items x ≡ true → ts' x ≡ ts x)
    → Agree ts' h
Agree-same ts ts' h a same x k = let (s, t) = a x k in (s ∙ sym (same x k), rw (same x k) t)

pub Agree-push :
    (ts : Timers) (r : ℕ) (h : Listed)
    → Agree ts h
    → IsTime (ts r).expire_at
    → Agree ts (record { keys = ts; items = r ∷ h.items })
Agree-push ts r h a time x k = elim (Bool-cases (r == x)) [
  | inl e ↦ let same : r ≡ x = ground (arith, e) in (refl, rw (sym same) time)
  | inr e ↦ (refl, (a x (ground (arith, e, k))).1)
]

pub Agree-remove :
    (ts : Timers) (r : ℕ) (h : Listed)
    → Agree ts h
    → Agree ts (record { keys = ts; items = without r h.items })
Agree-remove ts r h a x k = (refl, (a x (ground (arith, k, contains-without r x h.items))).1)

pub Agree-fix :
    (ts ts' : Timers) (r : ℕ) (h : Listed)
    → Agree ts h
    → ((x : ℕ) → r ≢ x → ts' x ≡ ts x)
    → IsTime (ts' r).expire_at
    → Agree ts' (record { keys = ts'; items = h.items })
Agree-fix ts ts' r h a same time x k = elim (Bool-cases (r == x)) [
  | inl e ↦ let here : r ≡ x = ground (arith, e) in (refl, rw (sym here) time)
  | inr e ↦ (refl, rw (same x (ground (arith, e))) (a x k).1)
]

pub Agree-new : (ts keys : Timers) → Agree ts (record { keys = keys; items = [] })
Agree-new ts keys x k = absurd (ground (arith, k))

abbrev pub ListHeap-IsHeap : IsHeap ListHeap
ListHeap-IsHeap = record {
  holds = λ h x. contains h.items x;
  Keeps = Agree;
  new_holds = λ r. refl;
  new_keeps = λ ts. Agree-new ts _;
  keeps_same = Agree-same;
  len_none = λ h r e. none_contained h.items r e;
  top_some = λ h e. first_exists h.keys h.items e;
  top_holds = λ h r. first_contained h.keys h.items r;
  top_exists = λ h x k. first_found h.keys h.items x k;
  top_least = ListHeap-top_least;
  push_holds = λ ts r x h. refl;
  push_keeps = λ ts r h a _ time. Agree-push ts r h a time;
  remove_holds = λ ts r x h _ _. contains-without r x h.items;
  remove_keeps = λ ts r h a _. Agree-remove ts r h a;
  fix_holds = λ ts ts' r x h _ _. refl;
  fix_keeps = λ ts ts' r h a _ same time. Agree-fix ts ts' r h a same time;
}
