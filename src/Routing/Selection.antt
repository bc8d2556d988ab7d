-- ===== src/Routing/Selection.antt =====
-- selectLeastLoaded: the chosen server carries the least load, and each of the least loaded gets
-- its turn.
use distributed_chat_system.Prelude.{
  ℕ, zero, suc, ◌+◌, ◌*◌, ◌%◌, ◌≤◌, ◌<◌, ◌≡◌, refl, ap, sym, subst, ◌∙◌, String, Bool, some, List,
  [], ◌∷◌, length, get_elem?, All, arith,
}
use native.Mathlib.Nat.{mod-lt, mod-eq_of_lt, add-mul-mod_self_right}
use distributed_chat_system.Routing.{
  ServerLoad, int_max, minimum, candidates, sort, select_least_loaded,
}
use distributed_chat_system.Routing.Candidates.{
  InRange, minimum-le, least_server, Has-candidate, candidate-Has, Has-sort, sort-Has, length-sort,
}

-- A server of the list with this name, whose load no other undercuts.
pub record IsLeastLoaded (ss : List ServerLoad) (name : String) : Type 0 where
  pub server : ServerLoad
  pub index : ℕ
  pub listed : get_elem? ss index ≡ some server
  pub named : server.name ≡ name
  pub least : All (λ s. server.connection_count ≤ s.connection_count) ss

get_elem?_lt : (xs : List String) (i : ℕ) → i < length xs → (x : String) × (get_elem? xs i ≡ some x)
get_elem?_lt [] i h = ground arith
get_elem?_lt (x ∷ xs) zero h = (x, refl)
get_elem?_lt (x ∷ xs) (suc i) h = get_elem?_lt xs i (omega (arith, h))

has-lt : (xs : List String) (x : String) (i : ℕ) → get_elem? xs i ≡ some x → i < length xs
has-lt [] x i e = ground arith
has-lt (y ∷ ys) x zero e = omega arith
has-lt (y ∷ ys) x (suc i) e = omega (arith, has-lt ys x i e)

module _ (before : String → String → Bool) where
  select-is :
      (s : ServerLoad) (ss : List ServerLoad) (cursor : ℕ)
      → select_least_loaded before (s ∷ ss) cursor
        ≡ get_elem?
            (sort before (candidates (minimum int_max (s ∷ ss)) (s ∷ ss)))
            (cursor % length (sort before (candidates (minimum int_max (s ∷ ss)) (s ∷ ss))))
  unfolding select_least_loaded
  select-is s ss cursor = refl

  positive_turns :
      (s : ServerLoad) (ss : List ServerLoad)
      → InRange (s ∷ ss)
      → 0 < length (sort before (candidates (minimum int_max (s ∷ ss)) (s ∷ ss)))
  positive_turns s ss range =
      let (i, t, e, h) = least_server s ss range in
      let names = candidates (minimum int_max (s ∷ ss)) (s ∷ ss) in
      let (j, found) =
        Has-sort before names t.name
          (Has-candidate (minimum int_max (s ∷ ss)) (s ∷ ss) t (i, e) h) in
      omega (arith, has-lt (sort before names) t.name j found)

  -- For a list of servers that is not empty and whose counts are ints, selectLeastLoaded chooses,
  -- whatever the cursor, the name of a listed server whose count no listed server undercuts.
  pub select_least_loaded-IsLeast :
      (s : ServerLoad) (ss : List ServerLoad) (cursor : ℕ)
      → InRange (s ∷ ss)
      → (name : String) × (select_least_loaded before (s ∷ ss) cursor ≡ some name)
        × IsLeastLoaded (s ∷ ss) name
  select_least_loaded-IsLeast s ss cursor range =
      let least = minimum int_max (s ∷ ss) in
      let names = candidates least (s ∷ ss) in
      let i = cursor % length (sort before names) in
      let (name, e) =
        get_elem?_lt (sort before names) i (mod-lt cursor (positive_turns s ss range)) in
      let (t, (j, listed), named, h) =
        candidate-Has least (s ∷ ss) name (sort-Has before names name (i, e)) in
      (
        name,
        select-is s ss cursor ∙ e,
        record {
          server = t;
          index = j;
          listed = listed;
          named = named;
          least =
              subst (λ k. All (λ u. k ≤ u.connection_count) (s ∷ ss)) (sym h)
                (minimum-le int_max (s ∷ ss)).1;
        },
      )

  -- A listed server with the least count of the list has a turn: there is a position below the
  -- number of least loaded servers, at which selectLeastLoaded chooses the server's name, in every
  -- round of the cursor through that number.
  pub select_least_loaded_turn :
      (s : ServerLoad) (ss : List ServerLoad) (t : ServerLoad) (index : ℕ)
      → get_elem? (s ∷ ss) index ≡ some t
      → t.connection_count ≡ minimum int_max (s ∷ ss)
      → (turn : ℕ) × (turn < length (candidates (minimum int_max (s ∷ ss)) (s ∷ ss)))
        × ((round : ℕ)
            → select_least_loaded before
                (s ∷ ss)
                (turn + round * length (candidates (minimum int_max (s ∷ ss)) (s ∷ ss)))
              ≡ some t.name)
  select_least_loaded_turn s ss t index listed h =
      let least = minimum int_max (s ∷ ss) in
      let names = candidates least (s ∷ ss) in
      let (turn, e) =
        Has-sort before names t.name (Has-candidate least (s ∷ ss) t (index, listed) h) in
      let turn_lt = has-lt (sort before names) t.name turn e in
      (
        turn,
        subst (λ n. turn < n) (length-sort before names) turn_lt,
        λ round.
            select-is s ss (turn + round * length names)
            ∙ ap (get_elem? (sort before names)) (
                ap (λ n. (turn + round * n) % length (sort before names))
                  (sym (length-sort before names))
                ∙ add-mul-mod_self_right turn round (length (sort before names))
                ∙ mod-eq_of_lt turn_lt)
            ∙ e,
      )
