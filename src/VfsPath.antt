-- ===== src/VfsPath.antt =====
-- kernel/src/path.cpp and kernel/include/vfs/path.hpp: paths as a text and the positions of its
-- slashes. A failed assertion and a read outside a vector are the result `none`.
pub mod Canonical
pub mod Names
mod Tests
use thor_os.Prelude.{
  ℕ, zero, suc, ◌+◌, ◌-◌, ◌%◌, ◌^◌, Bool, true, false, not, ◌&&◌, ◌||◌, Option, none, some, List,
  [], ◌∷◌, ◌++◌, ◌==◌, ltb, leb, if◌then◌else◌, ◌>>=◌, length, get_or, get_elem?, take, drop, last,
}
use thor_os.Text.{Text, is_empty}

pub record VfsPath : Type 0 where
  pub base : Text
  pub positions : List ℕ

abbrev pub slash : ℕ
slash = b'/'

abbrev pub empty_path : VfsPath
empty_path = record { base = []; positions = [] }

abbrev pub sub64 : ℕ → ℕ → ℕ
sub64 a b = (a + 2 ^ 64 - b) % 2 ^ 64

-- `std::string::erase(position)`
pub erase : Text → ℕ → Text
erase s position = if leb (length s) position then s else take position s ++ drop (position + 1) s

-- The first loop of `update_positions`, with `i` from the given number less one down to 0.
pub collapse : ℕ → Text → Text
collapse zero base = base
collapse (suc i) base = collapse i (
    if get_or base i 0 == slash && get_or base (i + 1) 0 == slash then erase base (i + 1) else base)

-- `base.back() != '/'`, and the slash that is added.
pub ended : Text → Text
ended base = elim (last base) [
  | none ↦ base ++ (slash ∷ [])
  | some c ↦ if c == slash then base else base ++ (slash ∷ [])
]

-- The second loop, from the index `i` on. A position has 16 bits.
pub slashes : Text → ℕ → List ℕ
slashes [] i = []
slashes (c ∷ cs) i =
    let rest = slashes cs (i + 1) in if c == slash then (i % 2 ^ 16) ∷ rest else rest

-- `update_positions`, on a path with this base.
pub update_positions : Text → VfsPath
update_positions base =
    if is_empty base
    then record { base = base; positions = [] }
    else (let canonical = ended (collapse (length base - 1) base) in
        record { base = canonical; positions = slashes canonical 0 })

-- `path(std::string_view)`
pub path : Text → Option VfsPath
path s = if is_empty s then none else some (update_positions s)

abbrev pub starts_with_slash : Text → Bool
starts_with_slash [] = false
starts_with_slash (c ∷ cs) = c == slash

-- `path(const path&, std::string_view)` and `operator/` with it.
pub append : VfsPath → Text → Option VfsPath
append base_path p =
    if starts_with_slash p then none else some (update_positions (base_path.base ++ p))

pub is_absolute : VfsPath → Bool
is_absolute p = starts_with_slash p.base

pub is_relative : VfsPath → Bool
is_relative p = not (is_absolute p)

-- `path(const path&, const path&)` and `operator/` with it.
pub append_path : VfsPath → VfsPath → Option VfsPath
append_path base_path p =
    if is_relative p then some (update_positions (base_path.base ++ p.base)) else none

pub assign : Text → VfsPath
assign rhs = update_positions rhs

abbrev pub same_text : Text → Text → Bool
same_text [] [] = true
same_text [] (y ∷ ys) = false
same_text (x ∷ xs) [] = false
same_text (x ∷ xs) (y ∷ ys) = x == y && same_text xs ys

pub invalidate : VfsPath → VfsPath
invalidate p = record { base = slash ∷ slash ∷ []; positions = [] }

pub empty : VfsPath → Bool
empty p = is_empty p.base

pub is_root : VfsPath → Bool
is_root p = same_text p.base (slash ∷ [])

pub is_valid : VfsPath → Bool
is_valid p = not (is_empty p.base) && not (same_text p.base (slash ∷ slash ∷ []))

pub size : VfsPath → ℕ
size p = length p.positions

pub is_sub_root : VfsPath → Bool
is_sub_root p = is_absolute p && size p == 2

-- `std::string_view{base.begin() + from, count}`
abbrev pub view : Text → ℕ → ℕ → Text
view base from count = take count (drop from base)

-- The part of the base behind the last slash but one, without the last slash.
pub last_part : VfsPath → Option Text
last_part p = do
  before ← get_elem? p.positions (size p - 2)
  some (view p.base (before + 1) (sub64 (length p.base - 1) (before + 1)))

pub base_name : VfsPath → Option Text
base_name p =
    if empty p
    then some []
    else if is_root p
    then some (slash ∷ [])
    else if is_absolute p
    then last_part p
    else if size p == 1
    then some (view p.base 0 (length p.base - 1))
    else last_part p

pub root_name : VfsPath → Option Text
root_name p =
    if empty p
    then some []
    else if is_absolute p
    then some (slash ∷ [])
    else (do first ← get_elem? p.positions 0; some (view p.base 0 first))

pub sub_root_name : VfsPath → Option Text
sub_root_name p =
    if is_absolute p
    then (if ltb (size p) 2
        then some []
        else (do second ← get_elem? p.positions 1; some (view p.base 1 (sub64 second 1))))
    else none

-- The part between two neighbouring slashes.
pub middle_name : VfsPath → ℕ → Option Text
middle_name p i = do
  before ← get_elem? p.positions (i - 1)
  here ← get_elem? p.positions i
  some (view p.base (before + 1) (sub64 (sub64 here 1) before))

pub name : VfsPath → ℕ → Option Text
name p i =
    if is_absolute p
    then (if i == 0 then some (slash ∷ []) else middle_name p i)
    else if i == 0
    then (do here ← get_elem? p.positions i; some (view p.base 0 here))
    else middle_name p i

pub sub_path : VfsPath → ℕ → Option VfsPath
sub_path p i = if i == 0 then some p else if i == size p then some empty_path else (do
  before ← get_elem? p.positions (i - 1)
  some (update_positions (drop (before + 1) p.base)))

pub branch_path : VfsPath → Option VfsPath
branch_path p = if empty p || is_root p || (is_relative p && size p == 1) then some p else (do
  before ← get_elem? p.positions (size p - 2)
  some (update_positions (take before p.base)))

pub same_path : VfsPath → VfsPath → Bool
same_path p q = same_text p.base q.base

-- `operator==(std::string_view)`
pub same_as_text : VfsPath → Text → Option Bool
same_as_text p s = do q ← path s; some (same_path p q)
