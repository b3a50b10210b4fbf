-- ===== src/ConfigFile/Atomic.antt =====
-- A file of a feature is replaced as a whole, or not at all.
use nameq.Base.{
  ◌≡◌, refl, ◌⊎◌, inl, inr, Bool, true, false, Option, none, some, arith, ite, if◌then◌else◌,
}
use nameq.Base.Text.{Text, Bytes, Text-discrete}
use nameq.Base.Map.{Map, lookup, insert, erase, lookup-insert, lookup-erase}
use nameq.Base.Result.{ok, err}
use nameq.ConfigFile.{
  WriteFile, written, write_failed, FileCalls, FileError, mkdir_failed, write_error, rename_failed,
  after_write, Written, rename_file, tmp_path, create_config_file,
}

-- The content of the one path, in place of what was there, and no temporary file.
abbrev pub replaced : Text → Text → Bytes → Map Bytes → Text → Option Bytes
replaced path tmp content files p =
    ite (Text-discrete path p) (some content) (ite (Text-discrete tmp p) none (lookup p files))

lookup-rename_file :
    (from to p : Text) (content : Bytes) (files : Map Bytes)
    → lookup p (rename_file from to (insert from content files)) ≡ replaced to from content files p
lookup-rename_file from to p content files = ground (
  arith,
  lookup-insert from from content files,
  lookup-insert to p content (erase from (insert from content files)),
  lookup-erase from p (insert from content files),
  lookup-insert from p content files,
)

-- What a call leaves: all is done, or an error with every other file as it was.
abbrev pub IsAtomic : Text → Text → Bytes → Map Bytes → Written → Type 0
IsAtomic path tmp content files (r, files') =
    ((r ≡ ok tt) × ((p : Text) → lookup p files' ≡ replaced path tmp content files p))
    ⊎ ((e : FileError) × (r ≡ err e)
        × ((p : Text) → (tmp ≡ p) ⊎ (lookup p files' ≡ lookup p files)))

module _ (path tmp : Text) (content : Bytes) (files : Map Bytes) where
  failed-IsAtomic : (e : FileError) → IsAtomic path tmp content files (err e, files)
  failed-IsAtomic e = inr (e, refl, λ p. inr refl)

  if-IsAtomic :
      (b : Bool) (x y : Written)
      → IsAtomic path tmp content files x
      → IsAtomic path tmp content files y
      → IsAtomic path tmp content files (if b then x else y)
  if-IsAtomic true x y h k = h
  if-IsAtomic false x y h k = k

  -- Elsewhere than at the temporary file a write to it and its removal change nothing.
  left_over :
      (left : Bytes) (p : Text) → (tmp ≡ p) ⊎ (lookup p (insert tmp left files) ≡ lookup p files)
  left_over left p = ground (arith, lookup-insert tmp p left files)

  cleaned_up :
      (b : Bool) (p : Text)
      → (tmp ≡ p)
        ⊎ (lookup p (if b then insert tmp content files else erase tmp (insert tmp content files))
            ≡ lookup p files)
  cleaned_up true p = left_over content p
  cleaned_up false p =
      ground
        (arith, lookup-erase tmp p (insert tmp content files), lookup-insert tmp p content files)

  after_write-IsAtomic :
      (c : FileCalls) (w : WriteFile)
      → IsAtomic path tmp content files (after_write c w tmp path content files)
  unfolding after_write
  after_write-IsAtomic c (write_failed none) = failed-IsAtomic write_error
  after_write-IsAtomic c (write_failed (some left)) = inr (write_error, refl, left_over left)
  after_write-IsAtomic c written =
      if-IsAtomic c.rename _ _ (inr (rename_failed, refl, cleaned_up c.remove_temp))
        (inl (refl, λ p. lookup-rename_file tmp path p content files))

-- Whatever fails, a call leaves the new content under the path and no temporary file, and all else as
-- it was; or it returns an error, and every file but the temporary one is as it was.
pub create_config_file-IsAtomic :
    (join : Text → Text → Text) (c : FileCalls) (dir name : Text) (content : Bytes)
    (files : Map Bytes)
    → IsAtomic
        (join dir name)
        (tmp_path join dir name)
        content
        files
        (create_config_file join c dir name content files)
unfolding create_config_file
create_config_file-IsAtomic join c dir name content files =
    let path = join dir name in
    let tmp = tmp_path join dir name in
    if-IsAtomic path tmp content files c.mkdir_all _ _
      (failed-IsAtomic path tmp content files mkdir_failed)
      (after_write-IsAtomic path tmp content files c c.write_file)
