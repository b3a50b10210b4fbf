-- ===== src/Samples/Disk.antt =====
-- A file system on which every call succeeds, with a join of paths that tells all paths apart.
use nameq.Base.{
  ◌≡◌, refl, ap, sym, ◌∙◌, false, some, ◌∷◌, ◌++◌, take, drop, length, take_append, drop_append,
}
use nameq.Base.Text.{Text, codes}
use nameq.Node.{LocalNode, RemoteNodes}
use nameq.Packet.{first_byte}
use nameq.State.{Calls, Disk, render}
use nameq.State.Writes.{Succeeds}
use nameq.State.Shown.{IsApart, IsRendered}
use nameq.Samples.{codec}

abbrev pub all_well : Calls
all_well = record {
  read_file = false;
  temp_file = some (codes "feature1");
  write = false;
  chmod = false;
  close = false;
  mkdir_all = false;
  rename = false;
  remove = false;
}

pub all_well-Succeeds : Succeeds all_well
all_well-Succeeds = record {
  read_file = refl;
  name = codes "feature1";
  temp_file = refl;
  write = refl;
  chmod = refl;
  close = refl;
  mkdir_all = refl;
  rename = refl;
}

-- The length of the first path stands in front.
abbrev pair : Text → Text → Text
pair a b = length a ∷ (a ++ b)

pair-injective : (a b a' b' : Text) → pair a b ≡ pair a' b' → (a ≡ a') × (b ≡ b')
pair-injective a b a' b' e =
    let same : length a ≡ length a' = ap first_byte e in
    let rest : a ++ b ≡ a' ++ b' = ap (drop 1) e in
    (
      sym (take_append (length a) a b refl)
          ∙ ap (take (length a)) rest
          ∙ take_append (length a) a' b' (sym same),
      sym (drop_append (length a) a b refl)
          ∙ ap (drop (length a)) rest
          ∙ drop_append (length a) a' b' (sym same),
    )

abbrev pub disk : Disk
disk = record { join = pair; calls = λ path. all_well; walk = λ path. false }

pub disk-IsApart :
    (local : LocalNode) (remotes : RemoteNodes) (dir : Text) → IsApart local remotes disk dir
disk-IsApart local remotes dir f k f' k' v v' h h' e =
    let (outer, host) = pair-injective (pair dir f) k (pair dir f') k' e in
    ((pair-injective dir f dir f' outer).1, host)

pub codec-IsRendered : (local : LocalNode) (remotes : RemoteNodes) → IsRendered codec local remotes
unfolding render codec
codec-IsRendered local remotes f k v h = (_, refl)
