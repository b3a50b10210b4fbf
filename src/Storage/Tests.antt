-- ===== src/Storage/Tests.antt =====
-- Listings and scans of concrete buckets.
use mathlib.Core.Path.{subst}
use mathlib.Core.List.{mem-cons_self}
use nameq.Base.{
  All, ℕ, ◌*◌, ◌≤◌, ◌≡◌, refl, ap, inl, inr, true, false, Option, none, some, List, [], ◌∷◌, length,
  arith, ite,
}
use nameq.Base.Int.{ℤ, pos, ◌-ℤ◌}
use nameq.Base.Text.{Text, codes, Text-discrete}
use nameq.Base.Map.{lookup}
use nameq.Base.Run.{returns}
use nameq.Base.Result.{ok}
use nameq.Node.{LocalNode, RemoteNodes}
use nameq.Node.Local.{empty_node}
use nameq.Node.Remotes.{new_remote_nodes}
use nameq.Node.Remotes.Laws.{IsKeyed}
use nameq.Node.Remotes.Merge.{node_at, IsAtLeast}
use nameq.Codec.{whole}
use nameq.Storage.{
  Object, Page, Output, Client, next_marker, list_objects, Scanned, scan_objects, expire_timeout,
  loaded_node,
}
use nameq.Storage.Listing.{Answer, Lists, list_objects-all}
use nameq.Storage.Scan.{IsFresh, scan_objects-IsStale, scan_objects-IsAtLeast}
use nameq.Storage.Sorted.{IsStale}
use nameq.Samples.{codec}
use nameq.Samples.Json.{put_node}
use nameq.Samples.Net.{net}

abbrev second : ℕ
second = 1000000000

-- The objects of 10.0.0.2, seen lately, and of 10.0.0.3, long ago.
abbrev late : Object
late = record { key = codes "p/10.0.0.2"; last_modified = pos (9000 * second) }

abbrev old : Object
old = record { key = codes "p/10.0.0.3"; last_modified = pos (8000 * second) }

abbrev pub objects : List Object
objects = late ∷ old ∷ []

abbrev output : Output
output = record {
  body = whole (put_node (record empty_node { features = (codes "a", none) ∷ [] }));
  last_modified = pos (9000 * second);
}

abbrev get : Text → Option Output
get key = some output

-- Pages of one object.
abbrev list : Option Text → Option Page
list none = some (record { contents = late ∷ []; is_truncated = true })
list (some key) =
    ite (Text-discrete key late.key) (some (record { contents = old ∷ []; is_truncated = false }))
      (some (record { contents = []; is_truncated = false }))

abbrev pub client : Client
client = record {
  list_objects = list;
  get_object = get;
  put_object = λ key body. false;
  delete_object = λ key. false;
}

abbrev pub local : LocalNode
local = record {
  ip_addr = codes "10.0.0.1";
  conn = 3;
  mode = record { id = 0; secret = [] };
  node = empty_node;
}

abbrev head_of : List Object → Object
head_of [] = late
head_of (x ∷ _) = x

abbrev tail_of : List Object → List Object
tail_of [] = []
tail_of (_ ∷ xs) = xs

Answer-first : Answer client none objects
Answer-first = record {
  page = record { contents = late ∷ []; is_truncated = true };
  more = old ∷ [];
  answers = refl;
  parts = refl;
  truncated = refl;
  progress = inr (omega arith);
}

Answer-next : Answer client (some late.key) (old ∷ [])
unfolding Text-discrete
Answer-next = record {
  page = record { contents = old ∷ []; is_truncated = false };
  more = [];
  answers = refl;
  parts = refl;
  truncated = refl;
  progress = inl refl;
}

Answer-last : Answer client (some old.key) []
unfolding Text-discrete
Answer-last = record {
  page = record { contents = []; is_truncated = false };
  more = [];
  answers = refl;
  parts = refl;
  truncated = refl;
  progress = inl refl;
}

cons_parts : {x y : Object} {xs ys : List Object} → x ∷ xs ≡ y ∷ ys → (x ≡ y) × (xs ≡ ys)
cons_parts e = (ap head_of e, ap tail_of e)

client-Lists : Lists client objects
unfolding Text-discrete next_marker
client-Lists [] after e = subst (Answer client none) e Answer-first
client-Lists (x ∷ []) after e =
    let (p, q) = cons_parts e in
    subst (λ (z : Object). Answer client (some z.key) after) p
      (subst (Answer client (some late.key)) q Answer-next)
client-Lists (x ∷ y ∷ []) after e =
    let (p, q) = cons_parts (ap tail_of e) in
    subst (λ (z : Object). Answer client (some z.key) after) p
      (subst (Answer client (some old.key)) q Answer-last)
client-Lists (x ∷ y ∷ z ∷ rest) after e = absurd (omega (arith, ap length e))

list_objects-all_example : list_objects 3 (some client) ≡ ok (some objects)
list_objects-all_example = list_objects-all client objects client-Lists 3 (omega arith)

list_run : list_objects 3 (some client) ≡ ok (some objects)
unfolding list_objects Text-discrete
list_run = refl

no_fuel : list_objects 1 (some client) ≡ ok none
unfolding list_objects Text-discrete
no_fuel = refl

abbrev pub now : ℤ
now = pos (9100 * second)

abbrev pub remotes : RemoteNodes
remotes = new_remote_nodes 17106

pub remotes-IsKeyed : IsKeyed remotes
unfolding new_remote_nodes lookup
remotes-IsKeyed = record { is_map = tt; keyed = λ k r e. absurd (ground arith) }

pub prefixed : All (λ (o : Object). 2 ≤ length o.key) objects
prefixed = (omega arith, (omega arith, tt))

scan_objects-IsStale_example :
    (s : Scanned) × (scan_objects net codec local client (codes "p/") now objects remotes
      ≡ returns s)
    × All (IsStale net local remotes (now -ℤ expire_timeout) 2 objects) s.deletes
scan_objects-IsStale_example =
    scan_objects-IsStale net codec local client (codes "p/") now objects remotes prefixed

late-IsFresh : IsFresh net local codec client 2 (now -ℤ expire_timeout) late
unfolding net codec loaded_node ◌-ℤ◌ Text-discrete
late-IsFresh = record {
  ip = codes "10.0.0.2";
  node = record {
    ip_addr = codes "10.0.0.2";
    time_ns = pos (9000 * second);
    features = (codes "a", none) ∷ [];
  };
  named = λ e. ground arith;
  other = λ e. ground arith;
  parses = refl;
  global = refl;
  late = refl;
  loads = refl;
  newer = omega arith;
}

scan_objects-IsAtLeast_example :
    (s : Scanned) × (scan_objects net codec local client (codes "p/") now objects remotes
      ≡ returns s)
    × IsAtLeast (pos (9000 * second)) (node_at s.remotes (codes "10.0.0.2"))
scan_objects-IsAtLeast_example =
    scan_objects-IsAtLeast net codec local client (codes "p/") now objects remotes prefixed late
      remotes-IsKeyed mem-cons_self late-IsFresh
