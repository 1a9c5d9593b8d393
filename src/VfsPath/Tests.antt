-- ===== src/VfsPath/Tests.antt =====
-- Runs of the path operations on concrete texts.
use thor_os.Prelude.{none, false, true, ap, ◌<◌, ◌^◌, ◌≡◌, refl, arith, some, [], ◌∷◌, ◌++◌, length}
use thor_os.Text.{Text}
use thor_os.Text.Split.{join}
use thor_os.VfsPath.{
  VfsPath, root_name, sub_root_name, is_relative, sub_path, append_path, same_path, assign,
  is_valid, invalidate, same_as_text, empty, ended, collapse, erase, is_root, is_absolute,
  last_part, slashes, slash, path, name, size, base_name, is_sub_root, branch_path,
  update_positions, empty_path,
}
use thor_os.VfsPath.Canonical.{names, lead, add_char, update_positions-canonical}
use thor_os.VfsPath.Names.{name-names, branch_path_of_sub_root}

-- "//ab///c"
abbrev doubled : Text
doubled = slash ∷ slash ∷ b'a' ∷ b'b' ∷ slash ∷ slash ∷ slash ∷ b'c' ∷ []

doubled_base : (update_positions doubled).base ≡ slash ∷ b'a' ∷ b'b' ∷ slash ∷ b'c' ∷ slash ∷ []
unfolding update_positions ended collapse erase
doubled_base = refl

base_name-doubled : base_name (update_positions doubled) ≡ some (b'c' ∷ [])
unfolding update_positions base_name empty ended collapse erase is_root is_absolute last_part
    slashes size
base_name-doubled = refl

doubled_short : length (update_positions doubled).base < 2 ^ 16
doubled_short =
    let size_6 : length (update_positions doubled).base ≡ 6 = ap length doubled_base in
    omega (arith, size_6)

update_positions-canonical_example :
    (update_positions doubled).base ≡ lead doubled ++ join slash (names doubled)
update_positions-canonical_example = update_positions-canonical doubled refl

name-names_example :
    (name (update_positions doubled) 2 ≡ some (b'c' ∷ []))
    × (name (update_positions doubled) 0 ≡ some (slash ∷ []))
unfolding names add_char
name-names_example = name-names doubled 1 (b'c' ∷ []) refl doubled_short refl

branch_path_of_sub_root_example :
    (p : VfsPath) × (path (slash ∷ (b'a' ∷ b'b' ∷ []) ++ (slash ∷ [])) ≡ some p)
    × (is_sub_root p ≡ true)
    × (branch_path p ≡ some empty_path)
branch_path_of_sub_root_example =
    branch_path_of_sub_root b'a' (b'b' ∷ []) (refl, (refl, tt)) (omega arith)

-- "/ab/c/" and "ab/c/"
abbrev absolute : VfsPath
absolute = record {
  base = slash ∷ b'a' ∷ b'b' ∷ slash ∷ b'c' ∷ slash ∷ [];
  positions = 0 ∷ 3 ∷ 5 ∷ [];
}

abbrev relative : VfsPath
relative = record { base = b'a' ∷ b'b' ∷ slash ∷ b'c' ∷ slash ∷ []; positions = 2 ∷ 4 ∷ [] }

root_names :
    (root_name absolute ≡ some (slash ∷ []))
    × (root_name relative ≡ some (b'a' ∷ b'b' ∷ []))
    × (sub_root_name absolute ≡ some (b'a' ∷ b'b' ∷ []))
    × (sub_root_name relative ≡ none)
unfolding root_name sub_root_name empty is_absolute size
root_names = (refl, refl, refl, refl)

sub_paths :
    (sub_path absolute 1 ≡ some relative)
    × (sub_path absolute 3 ≡ some empty_path)
    × (append_path absolute absolute ≡ none)
    × (same_path absolute relative ≡ false)
unfolding sub_path append_path same_path is_relative is_absolute size update_positions ended
    collapse erase slashes
sub_paths = (refl, refl, refl, refl)

assigned :
    (assign doubled ≡ absolute)
    × (is_valid (invalidate relative) ≡ false)
    × (is_valid relative ≡ true)
    × (same_as_text relative (b'a' ∷ b'b' ∷ slash ∷ b'c' ∷ []) ≡ some true)
unfolding assign is_valid invalidate same_as_text same_path path update_positions ended collapse
    erase slashes
assigned = (refl, refl, refl, refl)
