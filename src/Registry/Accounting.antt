-- ===== src/Registry/Accounting.antt =====
-- HostCount is the number of the host's own elements: no host id is lost or made up.
use votv_mp.Base.{
  ℕ, zero, suc, ◌+◌, ◌-◌, ◌<◌, ◌≡◌, refl, ◌≢◌, inl, inr, Bool, true, false, none, arith, ◌==◌,
  if◌then◌else◌, length, Bool-cases,
}
use votv_mp.ElementId.{host_range_size}
use votv_mp.Registry.{Process}
use votv_mp.Registry.Links.{own_at}

-- How many numbers below `n` pass the test.
pub count_below : (ℕ → Bool) → ℕ → ℕ
count_below f zero = 0
count_below f (suc n) = count_below f n + (if f n then 1 else 0)

pub count_below-none : (f : ℕ → Bool) (n : ℕ) → ((j : ℕ) → f j ≡ false) → count_below f n ≡ 0
unfolding count_below
count_below-none f zero h = refl
count_below-none f (suc n) h = ground (arith, count_below-none f n h, h n)

count_below-same :
    (f g : ℕ → Bool) (n : ℕ) → ((j : ℕ) → j < n → f j ≡ g j) → count_below f n ≡ count_below g n
unfolding count_below
count_below-same f g zero h = refl
count_below-same f g (suc n) h =
    ground (arith, count_below-same f g n (λ j lt. h j (omega arith)), h n (omega arith))

count_below-more :
    (f g : ℕ → Bool) (n id : ℕ)
    → id < n
    → f id ≡ true
    → g id ≡ false
    → ((j : ℕ) → j ≢ id → f j ≡ g j)
    → count_below f n ≡ count_below g n + 1
unfolding count_below
count_below-more f g zero id lt t u h = absurd (omega arith)
count_below-more f g (suc n) id lt t u h = elim (Bool-cases (n == id)) [
  | inl y ↦
      let e : n ≡ id = ground arith in
      ground (arith, e, count_below-same f g n (λ j k. h j (omega (arith, e))))
  | inr ne ↦ ground (arith, count_below-more f g n id (ground arith) t u h, h n (ground arith))
]

-- The host's own elements, counted by the table.
abbrev pub own_count : Process → ℕ
own_count s = count_below (own_at s) host_range_size

-- Every id of the host range but 0 is on the stack or an own element's, and no mirror has one.
pub record Accounted (s : Process) : Type 0 where
  pub vacant : (id : ℕ) → id < host_range_size → own_at s id ≡ false → s.by_id id ≡ none
  pub total : length s.host_free + count_below (own_at s) host_range_size ≡ host_range_size - 1

pub keep :
    (s t : Process)
    → length t.host_free ≡ length s.host_free
    → ((j : ℕ) → j < host_range_size → own_at t j ≡ own_at s j)
    → ((j : ℕ) → j < host_range_size → t.by_id j ≡ s.by_id j)
    → Accounted s
    → Accounted t
keep s t len own by a = record {
  vacant = λ id lt h. cc (by id lt, a.vacant id lt (cc (own id lt, h)));
  total = omega (arith, len, a.total, count_below-same (own_at t) (own_at s) host_range_size own);
}

-- One id goes from the stack to an own element of `t`.
pub take_one :
    (s t : Process) (id : ℕ)
    → suc (length t.host_free) ≡ length s.host_free
    → id < host_range_size
    → own_at s id ≡ false
    → own_at t id ≡ true
    → ((j : ℕ) → j ≢ id → own_at t j ≡ own_at s j)
    → ((j : ℕ) → j ≢ id → t.by_id j ≡ s.by_id j)
    → Accounted s
    → Accounted t
take_one s t id len lt before after own by a = record {
  vacant = λ j k h. elim (Bool-cases (j == id)) [
    | inl y ↦ absurd (ground (arith, after))
    | inr n ↦ ground (arith, by j, a.vacant j k, own j)
  ];
  total = omega (
    arith,
    len,
    a.total,
    count_below-more (own_at t) (own_at s) host_range_size id lt after before own,
  );
}

-- And back.
pub give_back :
    (s t : Process) (id : ℕ)
    → length t.host_free ≡ suc (length s.host_free)
    → id < host_range_size
    → own_at s id ≡ true
    → own_at t id ≡ false
    → t.by_id id ≡ none
    → ((j : ℕ) → j ≢ id → own_at t j ≡ own_at s j)
    → ((j : ℕ) → j ≢ id → t.by_id j ≡ s.by_id j)
    → Accounted s
    → Accounted t
give_back s t id len lt before after clear own by a = record {
  vacant = λ j k h. elim (Bool-cases (j == id)) [
    | inl y ↦ ground (arith, clear)
    | inr n ↦ ground (arith, by j, a.vacant j k, own j)
  ];
  total = omega (
    arith,
    len,
    a.total,
    count_below-more (own_at s) (own_at t) host_range_size id lt before after (λ j n. cc (own j n)),
  );
}
