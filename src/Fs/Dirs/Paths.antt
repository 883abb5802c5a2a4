-- ===== src/Fs/Dirs/Paths.antt =====
-- `walk_path` of fs/fs.c against a walk over the list of a path's components.
use buaa_mos_with_swap.Prelude.{
  ℕ, zero, suc, ◌≤◌, ◌≡◌, refl, ap, sym, ◌∙◌, Bool, true, false, List, [], ◌∷◌, none, arith, ◌==◌,
  if◌then◌else◌, length, is_nil, Bool-cases, inl, inr,
}
use buaa_mos_with_swap.Fs.{Server, M, pure, s_root}
use buaa_mos_with_swap.Fs.Dirs.{skip_slash, split_name, Walk, enter_dir, walk_from, walk_path}

unfoldable pub grow_first : ℕ → List (List ℕ) → List (List ℕ)
grow_first c [] = (c ∷ []) ∷ []
grow_first c (n ∷ names) = (c ∷ n) ∷ names

-- A character before the text `cs`, whose components are `names`: it starts a component or grows
-- the first one.
unfoldable pub cons_name : ℕ → List ℕ → List (List ℕ) → List (List ℕ)
cons_name c [] names = (c ∷ []) ∷ names
cons_name c (x ∷ xs) names = if x == b'/' then (c ∷ []) ∷ names else grow_first c names

-- The nonempty stretches of a path between its slashes.
unfoldable pub components : List ℕ → List (List ℕ)
components [] = []
components (c ∷ cs) = if c == b'/' then components cs else cons_name c cs (components cs)

-- The walk over the components: no fuel and no characters.
unfoldable pub walk_names : List (List ℕ) → ℕ → ℕ → M Walk
walk_names [] dir file = pure record { error = none; pdir = dir; pfile = file; lastelem = [] }
walk_names (name ∷ names) dir file = enter_dir file name (is_nil names) (walk_names names file)

components-skip_slash : (path : List ℕ) → components (skip_slash path) ≡ components path
unfolding components skip_slash
components-skip_slash [] = refl
components-skip_slash (c ∷ cs) = elim (Bool-cases (c == b'/')) [
  | inl slash ↦ rw slash (components-skip_slash cs)
  | inr other ↦ rw other (rw other refl)
]

-- The first component, where a path starts with none of the slashes.
components-split_name :
    (c : ℕ) (cs : List ℕ)
    → (c == b'/') ≡ false
    → components (c ∷ cs) ≡ (split_name (c ∷ cs)).0 ∷ components (split_name (c ∷ cs)).1
unfolding components split_name cons_name grow_first
components-split_name c [] h = rw h refl
components-split_name c (d ∷ ds) h = elim (Bool-cases (d == b'/')) [
  | inl slash ↦ rw (h, slash) (rw slash refl)
  | inr other ↦
      let rest = components-split_name d ds other in
      rw (h, other) (ap (grow_first c) (rw other at rest))
]

length-skip_slash : (path : List ℕ) → length (skip_slash path) ≤ length path
unfolding skip_slash
length-skip_slash [] = omega arith
length-skip_slash (c ∷ cs) = ground (arith, length-skip_slash cs)

length-split_name : (path : List ℕ) → length (split_name path).1 ≤ length path
unfolding split_name
length-split_name [] = omega arith
length-split_name (c ∷ cs) = ground (arith, length-split_name cs)

-- What is left of a path after its first component and the slashes behind it.
shorter :
    (c : ℕ) (cs : List ℕ)
    → (c == b'/') ≡ false
    → length (skip_slash (split_name (c ∷ cs)).1) ≤ length cs
unfolding split_name
shorter c cs h =
    let rest = length-split_name cs in
    let skipped = length-skip_slash (split_name cs).1 in rw h (omega (arith, rest, skipped))

no_slash : List ℕ → Bool
no_slash [] = true
no_slash (c ∷ cs) = if c == b'/' then false else true

no_slash-skip_slash : (path : List ℕ) → no_slash (skip_slash path) ≡ true
unfolding no_slash skip_slash
no_slash-skip_slash [] = refl
no_slash-skip_slash (c ∷ cs) = ground (arith, no_slash-skip_slash cs)

is_nil-components : (path : List ℕ) → no_slash path ≡ true → is_nil (components path) ≡ is_nil path
unfolding no_slash components
is_nil-components [] h = refl
is_nil-components (c ∷ cs) h = ap is_nil (components-split_name c cs (ground (arith, h)))

-- The loop on enough fuel.
walk_from_lem :
    (fuel dir file : ℕ) (path : List ℕ)
    → length path ≤ fuel
    → no_slash path ≡ true
    → walk_from fuel dir file path ≡ walk_names (components path) dir file
unfolding walk_from walk_names components no_slash
walk_from_lem fuel dir file [] l h = refl
walk_from_lem zero dir file (c ∷ cs) l h = absurd (omega (arith, l))
walk_from_lem (suc fuel) dir file (c ∷ cs) l h =
    let other : (c == b'/') ≡ false = ground (arith, h) in
    let name = (split_name (c ∷ cs)).0 in
    let path = skip_slash (split_name (c ∷ cs)).1 in
    let starts = no_slash-skip_slash (split_name (c ∷ cs)).1 in
    let same = components-skip_slash (split_name (c ∷ cs)).1 in
    let left : length path ≤ fuel = omega (arith, l, shorter c cs other) in
    let rounds = λ (next : ℕ). walk_from_lem fuel file next path left starts in
    ap (enter_dir file name (is_nil path)) (λ i next. rounds next i)
    ∙ ap (λ (b : Bool). enter_dir file name b (walk_names (components path) file))
        (sym (is_nil-components path starts))
    ∙ ap (λ (ns : List (List ℕ)). walk_names (name ∷ ns) dir file) same
    ∙ ap (λ (ns : List (List ℕ)). walk_names ns dir file) (sym (components-split_name c cs other))

-- `walk_path` is the walk over the path's components, the nonempty stretches between its slashes:
-- the loop always ends within as many rounds as the path has characters, and slashes that are
-- doubled, leading or trailing make no difference.
pub walk_path_lem :
    (path : List ℕ) (s : Server)
    → walk_path path s ≡ walk_names (components path) 0 (s_root s.super) s
unfolding walk_path
walk_path_lem path s =
    let start = s_root s.super in
    ap (λ (m : M Walk). m s)
      (walk_from_lem (length path) 0 start (skip_slash path) (length-skip_slash path)
        (no_slash-skip_slash path))
    ∙ ap (λ (ns : List (List ℕ)). walk_names ns 0 start s) (components-skip_slash path)
