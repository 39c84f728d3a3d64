-- ===== src/Json/Encode/Trees.antt =====
-- Whole values through the encoder of KFCJSONCodec.c: the text that a value stands for, written down
-- without the encoder, and the calls that add it.
pub mod Written
use kfcrash.Prelude.{ℕ, ◌+◌, Bool, true, false, ◌&&◌, Option, none, some, [], ◌++◌, ltb, Bytes}
use kfcrash.Json.Escape.{escape_loop, joined}
use kfcrash.Json.Number.{FloatOps}
use kfcrash.Json.Decode.Scalars.{Scalar}
use kfcrash.Json.Encode.Leaves.{leaf_text, add_leaf}
use kfcrash.Json.Encode.Strings.{to_text, line, comma, key}
use kfcrash.Json.Encode.{Call, ◌then◌, done, opening, end_container, begin_array, begin_object}
use kfcrash.Json.Encode.Brackets.{ending}

-- A value: a scalar, or an object or array with its entries. An array ignores the entries' names.
mutual
  pub data Tree (F : Type 0) : Type 0 where
    leaf : Scalar F → Tree F
    container : Bool → Entries F → Tree F

  pub data Entries (F : Type 0) : Type 0 where
    no_more : Entries F
    entry : Bytes → Tree F → Entries F → Entries F

-- Whether the next entry is still the first.
abbrev pub first_after : {F : Type 0} → Bool → Entries F → Bool
first_after first no_more = first
first_after first (entry name t rest) = false

abbrev pub when : Bool → Option Bytes → Option Bytes
when true o = o
when false o = none

-- What stands in front of an entry, with its name escaped.
abbrev pub lead_text : Bool → ℕ → Bool → Bool → Option Bytes → Option Bytes
lead_text pretty level first object none = none
lead_text pretty level first object (some q) =
    some (comma first ++ (line (pretty && ltb 0 level) level ++ key pretty object q))

module _ {F : Type 0} (ops : FloatOps F) (pretty : Bool) where
  -- The text of a value in a container at a level; `none` if the encoder refuses a string or a
  -- number of it, or if it nests to level 200.
  unfoldable mutual
    pub text_of : ℕ → Tree F → Option Bytes
    text_of level (leaf s) = leaf_text ops s
    text_of level (container object entries) = when (ltb (level + 1) 200) (
        joined (some (opening object)) (
          joined (entries_text (level + 1) true object entries)
            (some (ending pretty (first_after true entries) level object))))

    pub entries_text : ℕ → Bool → Bool → Entries F → Option Bytes
    entries_text level first object no_more = some []
    entries_text level first object (entry name t rest) =
        joined (joined (lead_text pretty level first object (escape_loop name)) (text_of level t))
          (entries_text level false object rest)

-- The calls that add a value, and the entries of a container.
module _ {F : Type 0} (ops : FloatOps F) where
  pub begin_container : Bool → Bytes → Call Bytes
  begin_container true name = begin_object to_text (some name)
  begin_container false name = begin_array to_text (some name)

  mutual
    unfolding begin_container

    pub add_tree : Bytes → Tree F → Call Bytes
    add_tree name (leaf s) = add_leaf ops name s
    add_tree name (container object entries) =
        begin_container object name then add_entries entries then end_container to_text

    pub add_entries : Entries F → Call Bytes
    add_entries no_more = done
    add_entries (entry name t rest) = add_tree name t then add_entries rest
