-- ===== src/Tests/Trees.antt =====
-- The theorems on what is read of a directory, each at one tree.
use mathlib.Core.List.{Perm}
use hostd.Base.{
  map, is_some, ◌&&◌, ◌+◌, ◌≡◌, Bool, true, false, not, none, some, List, [], ◌∷◌, Text, codes,
  length, keep_if, All, IsSorted,
}
use hostd.Filoconf.{Codec}
use hostd.Service.{Service}
use hostd.Service.Tree.{
  File, TreeEntry, absent, entries, load_entry, load_tree, declaration_le, is_skipped,
}
use hostd.Service.Tree.Whole.{IsDeclared, readable_of, load_tree-IsDeclared}
use hostd.Tests.{web}

-- An engine for which a text is a service's name.
abbrev names : Codec Service
names = record { marshal = λ s. some s.name; unmarshal = λ s src. some (record web { name = src }) }

abbrev no_ip : Text → Bool
no_ip s = false

abbrev caddyfile : File
caddyfile = record { name = codes "Caddyfile"; is_dir = false; content = some (codes "x") }

abbrev init : File
init = record { name = codes "init.filo"; is_dir = false; content = some (codes "caddy") }

abbrev tree : List TreeEntry
tree =
    record {
      name = codes "site.filo";
      is_dir = false;
      content = some (codes "site");
      inside = absent;
    }
    ∷ record {
      name = codes "caddy";
      is_dir = true;
      content = none;
      inside = entries (init ∷ caddyfile ∷ []);
    }
    ∷ record { name = codes "notes.txt"; is_dir = false; content = none; inside = absent }
    ∷ record {
      name = codes "other.filo";
      is_dir = false;
      content = some (codes "wrong");
      inside = absent;
    }
    ∷ []

load_tree-IsDeclared_example :
    All (IsDeclared no_ip names tree) (load_tree no_ip names tree).loaded
    × IsSorted declaration_le (load_tree no_ip names tree).loaded
    × Perm
        (load_tree no_ip names tree).loaded
        (readable_of (load_entry no_ip names) (keep_if (λ e. not (is_skipped e)) tree))
    × ((load_tree no_ip names tree).problems
        ≡ map
            (λ (e : TreeEntry). e.name)
            (keep_if (λ e. not (is_skipped e) && not (is_some (load_entry no_ip names e))) tree))
    × (length (load_tree no_ip names tree).loaded + length (load_tree no_ip names tree).problems
        ≡ length (keep_if (λ e. not (is_skipped e)) tree))
load_tree-IsDeclared_example = load_tree-IsDeclared no_ip names tree
