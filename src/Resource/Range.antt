-- ===== src/Resource/Range.antt =====
-- The byte range of a download: `number` of ResourceSupport.h and the part of Service::handle that
-- reads the header `Range`, as bytes.
use distributed_chat_system.Prelude.{
  ℕ, ◌+◌, ◌-◌, ◌*◌, ◌^◌, ◌≤◌, ◌<◌, ◌≡◌, Bool, false, not, ◌||◌, ◌&&◌, Option, none, some, List, [],
  ◌∷◌, ◌==◌, ltb, leb, min, all, length, take, drop, list_beq, if◌then◌else◌, arith, subst, Result,
  ok, ◌>>=◌, ◌>>◌, or_raise, raise_if-ok, >>=-ok, ok-injective, nat_eq,
}
use distributed_chat_system.Resource.{Problem, error, require}

unfoldable pub is_digit : ℕ → Bool
is_digit c = leb 48 c && leb c 57

-- std::from_chars over a text of digits, and the test that it read all of it.
unfoldable pub digits_value : ℕ → List ℕ → ℕ
digits_value n [] = n
digits_value n (c ∷ cs) = digits_value (n * 10 + (c - 48)) cs

unfoldable pub number : List ℕ → Result Problem ℕ
unfolding is_digit digits_value
number s = do
  require (not (length s == 0) && all is_digit s && ltb (digits_value 0 s) (2 ^ 64)) 400
  ok (digits_value 0 s)

-- Without the byte: a text before its first occurrence, and the text behind.
unfoldable pub split_at_byte : ℕ → List ℕ → Option (List ℕ × List ℕ)
split_at_byte b [] = none
split_at_byte b (c ∷ cs) = if c == b then some ([], cs) else elim (split_at_byte b cs) [
  | none ↦ none
  | some (before, behind) ↦ some (c ∷ before, behind)
]

unfoldable pub contains_byte : ℕ → List ℕ → Bool
contains_byte b [] = false
contains_byte b (c ∷ cs) = (c == b) || contains_byte b cs

-- "bytes="
abbrev pub unit_prefix : List ℕ
unit_prefix = 98 ∷ 121 ∷ 116 ∷ 101 ∷ 115 ∷ 61 ∷ []

-- `first` and `last` of a range over `total` bytes: where it begins and where it finishes.
unfoldable pub range_ends : ℕ → List ℕ → List ℕ → Result Problem (ℕ × ℕ)
unfolding number
range_ends total [] last = do
  suffix ← number last
  require (ltb 0 suffix) 416
  ok (total - min total suffix, total - 1)
range_ends total (c ∷ first) [] = do begin ← number (c ∷ first); ok (begin, total - 1)
range_ends total (c ∷ first) (d ∷ last) = do
  begin ← number (c ∷ first)
  finish ← number (d ∷ last)
  ok (begin, min (total - 1) finish)

-- The beginning, the finish and the length of what is sent.
pub record Part : Type 0 where
  pub begin : ℕ
  pub finish : ℕ
  pub count : ℕ

unfoldable pub part_of : ℕ → List ℕ → Result Problem Part
unfolding range_ends split_at_byte contains_byte
part_of total range = do
  require (list_beq (take 6 range) unit_prefix && not (contains_byte 44 range)) 416
  (first, last) ← or_raise (split_at_byte 45 (drop 6 range)) (error 416)
  require (ltb 0 total) 416
  (begin, finish) ← range_ends total first last
  require (ltb begin total && leb begin finish) 416
  ok (record { begin = begin; finish = finish; count = finish - begin + 1 })

last_byte : (total : ℕ) → 1 ≤ total → total - 1 < total
last_byte total h = omega arith

min_byte : (total finish : ℕ) → 1 ≤ total → min (total - 1) finish < total
min_byte total finish h = ground arith

within :
    (begin finish total : ℕ)
    → not (ltb begin total && leb begin finish) ≡ false
    → finish < total
    → (1 ≤ finish - begin + 1) × (begin + (finish - begin + 1) ≤ total)
within begin finish total inside h = (omega arith, ground arith)

range_ends-lt :
    (total : ℕ) (first last : List ℕ) (x : ℕ × ℕ)
    → 1 ≤ total
    → range_ends total first last ≡ ok x
    → x.1 < total
unfolding range_ends
range_ends-lt total [] last x h e =
    let (suffix, read, e1) = >>=-ok (number last) _ e in
    let ends = ok-injective (raise_if-ok (not (ltb 0 suffix)) (error 416) _ e1).1 in
    subst (λ (y : ℕ × ℕ). y.1 < total) ends (last_byte total h)
range_ends-lt total (c ∷ first) [] x h e =
    let (begin, read, e1) = >>=-ok (number (c ∷ first)) _ e in
    let ends = ok-injective e1 in subst (λ (y : ℕ × ℕ). y.1 < total) ends (last_byte total h)
range_ends-lt total (c ∷ first) (d ∷ last) x h e =
    let (begin, read, e1) = >>=-ok (number (c ∷ first)) _ e in
    let (finish, read', e2) = >>=-ok (number (d ∷ last)) _ e1 in
    let ends = ok-injective e2 in subst (λ (y : ℕ × ℕ). y.1 < total) ends (min_byte total finish h)

-- The part that Service::handle sends of a file, when it accepts the header, is not empty and lies
-- in the file.
pub part_of_bounds :
    (total : ℕ) (range : List ℕ) (p : Part)
    → part_of total range ≡ ok p
    → (1 ≤ p.count) × (p.begin + p.count ≤ total)
unfolding part_of
part_of_bounds total range p e =
    let (prefixed, e1) =
      raise_if-ok (not (list_beq (take 6 range) unit_prefix && not (contains_byte 44 range)))
        (error 416) _ e in
    let (x, dashed, e2) = >>=-ok (or_raise (split_at_byte 45 (drop 6 range)) (error 416)) _ e1 in
    let (positive, e3) = raise_if-ok (not (ltb 0 total)) (error 416) _ e2 in
    let (y, ends, e4) = >>=-ok (range_ends total x.0 x.1) _ e3 in
    let (inside, e5) = raise_if-ok (not (ltb y.0 total && leb y.0 y.1)) (error 416) _ e4 in
    let made = ok-injective e5 in
    subst (λ (q : Part). (1 ≤ q.count) × (q.begin + q.count ≤ total)) made
      (within y.0 y.1 total inside (range_ends-lt total x.0 x.1 y (ground (arith, positive)) ends))
