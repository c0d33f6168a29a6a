-- ===== src/EventLoop/Map.antt =====
-- httptest-geektime/lib/channel_map.c: the array of channels, which grows by doubling.
use cpp_example_code.Base.{
  ℕ, zero, suc, ◌-◌, ◌*◌, ◌≤◌, ◌<◌, ◌≡◌, refl, ◌⊎◌, inl, inr, Bool, true, false, not, Option, none,
  some, List, [], ◌∷◌, ◌++◌, arith,
}
use native.Mathlib.Nat.{mul-le-mul}
use cpp_example_code.Base.Tests.{leb, ◌==◌, if◌then◌else◌, Bool-cases}
use cpp_example_code.Base.Lists.{
  length, get_or, replicate, length-append, length-replicate, get_or-replicate,
}
use cpp_example_code.EventLoop.State.{Addr, null, ChannelMap}

-- `while (nentries <= slot) nentries <<= 1;`, with no result where an int overflows
unfoldable pub double_until : ℕ → ℕ → ℕ → Option ℕ
double_until zero nentries slot = none
double_until (suc fuel) nentries slot =
    let rest = double_until fuel (2 * nentries) slot in
    if leb nentries slot
    then (if leb 2147483648 (2 * nentries) then none else rest)
    else some nentries

-- `map_make_space`: whether it returned 0, and the map. The product in the call of realloc is an
-- int's.
unfoldable pub map_make_space : Bool → ChannelMap → ℕ → ℕ → Option (Bool × ChannelMap)
map_make_space granted map slot msize =
    if leb map.nentries slot
    then elim (double_until 32 (if map.nentries == 0 then 32 else map.nentries) slot) [
      | none ↦ none
      | some nentries ↦
          if leb 2147483648 (nentries * msize)
          then none
          else if not granted
          then some (false, map)
          else some (
            true,
            record {
              entries = map.entries ++ replicate (nentries - map.nentries) null;
              nentries = nentries;
            },
          )
    ]
    else some (true, map)

unfoldable pub map_init : ChannelMap
map_init = record { entries = []; nentries = 0 }

-- the channels that the loop of `map_clear` frees
unfoldable pub free_entries : List Addr → List Addr
free_entries [] = []
free_entries (a ∷ entries) = if a == null then free_entries entries else a ∷ free_entries entries

-- `map_clear`, with the channels that it frees
unfoldable pub map_clear : ChannelMap → ChannelMap × List Addr
map_clear map = (record { entries = []; nentries = 0 }, free_entries map.entries)

-- The array is as long as the map says.
abbrev pub IsMap : ChannelMap → Type 0
IsMap m = length m.entries ≡ m.nentries

-- the channel of a descriptor, NULL where there is none
abbrev pub channel_at : ChannelMap → ℕ → Addr
channel_at m fd = get_or m.entries fd null

abbrev doubles : ℕ → ℕ → ℕ
doubles zero n = n
doubles (suc k) n = doubles k (2 * n)

double_until-reaches :
    (k n slot : ℕ)
    → 0 < n
    → slot < doubles k n
    → slot < 134217728
    → (m : ℕ) × (double_until (suc k) n slot ≡ some m)
      × (slot < m)
      × ((m ≤ n) ⊎ (m ≤ 2 * slot))
      × (n ≤ m)
unfolding double_until
double_until-reaches zero n slot pos reach small =
    let enough : leb n slot ≡ false = ground arith in
    (n, rw enough refl, reach, inl (omega arith), omega arith)
double_until-reaches (suc k) n slot pos reach small = elim (Bool-cases (leb n slot)) [
  | inr enough ↦ (n, rw enough refl, ground arith, inl (omega arith), omega arith)
  | inl more ↦
      let le : n ≤ slot = ground arith in
      let fits : leb 2147483648 (2 * n) ≡ false = ground arith in
      let (m, e, lt, small', ge) = double_until-reaches k (2 * n) slot (omega arith) reach small in
      (
        m,
        rw (more, fits, double_until) e,
        lt,
        inr (elim small' [ inl a ↦ omega arith | inr b ↦ b ]),
        omega arith,
      )
]

get_or-grown :
    (xs : List Addr) (n i : ℕ) → get_or (xs ++ replicate n null) i null ≡ get_or xs i null
get_or-grown [] n i = get_or-replicate n null i
get_or-grown (x ∷ xs) n zero = refl
get_or-grown (x ∷ xs) n (suc i) = get_or-grown xs n i

-- What making space promises: it returns, with the same channel at every descriptor; the map is as
-- it was where memory is refused, and otherwise has room for the slot.
pub record Spacious (granted : Bool) (m : ChannelMap) (slot : ℕ) (out : Option (Bool × ChannelMap))
    : Type 0 where
  pub ok : Bool
  pub after : ChannelMap
  pub returns : out ≡ some (ok, after)
  pub well_formed : IsMap after
  pub same : (fd : ℕ) → channel_at after fd ≡ channel_at m fd
  pub room : ok ≡ true → slot < after.nentries
  pub answered : granted ≡ true → ok ≡ true
  pub refused : ok ≡ false → after ≡ m
  pub sized : after.nentries ≤ 134217728

-- `map_make_space` ends and makes room, for descriptors below 2 ^ 26 and cells of at most 8 bytes.
pub map_make_space-Spacious :
    (granted : Bool) (m : ChannelMap) (slot msize : ℕ)
    → IsMap m
    → slot < 67108864
    → m.nentries ≤ 134217728
    → msize ≤ 8
    → (Spacious granted m slot (map_make_space granted m slot msize))
unfolding map_make_space
map_make_space-Spacious granted m slot msize formed small size cell =
    elim (Bool-cases (leb m.nentries slot)) [
      | inr enough ↦ rw enough (record {
        ok = true;
        after = m;
        returns = refl;
        well_formed = formed;
        same = λ fd. refl;
        room = λ e. ground arith;
        answered = λ e. refl;
        refused = λ e. absurd (ground arith);
        sized = size;
      })
      | inl full ↦
          let first = if m.nentries == 0 then 32 else m.nentries in
          let pos : 0 < first = ground arith in
          let le_first : m.nentries ≤ first = ground arith in
          let (n, e, lt, le, ge) =
            double_until-reaches 31 first slot pos (omega arith) (omega arith) in
          let top : n ≤ 268435455 = elim le [ inl a ↦ ground arith | inr b ↦ omega arith ] in
          let fits : leb 2147483648 (n * msize) ≡ false = ground (arith, mul-le-mul top cell) in
          rw (full, e, fits, map_make_space)
            (elim (Bool-cases granted) [
              | inl granting ↦ rw granting (record {
                ok = true;
                after = record {
                  entries = m.entries ++ replicate (n - m.nentries) null;
                  nentries = n;
                };
                returns = refl;
                well_formed = omega (
                  arith,
                  length-append m.entries (replicate (n - m.nentries) null),
                  length-replicate (n - m.nentries) null,
                  le_first,
                );
                same = get_or-grown m.entries (n - m.nentries);
                room = λ e. lt;
                answered = λ e. refl;
                refused = λ e. absurd (ground arith);
                sized = elim le [ inl a ↦ ground arith | inr b ↦ omega arith ];
              })
              | inr denied ↦ rw denied (record {
                ok = false;
                after = m;
                returns = refl;
                well_formed = formed;
                same = λ fd. refl;
                room = λ e. absurd (ground arith);
                answered = λ e. absurd (ground arith);
                refused = λ e. refl;
                sized = size;
              })
            ])
    ]
