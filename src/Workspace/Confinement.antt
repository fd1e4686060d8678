-- ===== src/Workspace/Confinement.antt =====
-- The tools of workspace_tools.py open no file outside of the workspace.
use hivekernel.Prelude.{
  ℕ, ◌≡◌, ◌⊎◌, inl, inr, refl, ap, sym, ◌∙◌, Bool, true, false, ◌||◌, Bool-cases, List, [], ◌∷◌,
  ◌++◌, append_assoc, All, if◌then◌else◌, arith,
}
use hivekernel.Prelude.Text.{Text, text_eq, text_eq→eq, starts_with, contains}
use hivekernel.Exec.{Result, ok, raised}
use hivekernel.Tools.{ToolResult}
use hivekernel.Workspace.{
  FileSystem, Disk, Opened, content, not_found, failed, FileCall, read_file, write_file, edit_file,
  path_of, safe_path, run_at, edit_opened, replaced, touch, at_path, run_call,
}

-- The root itself, or a path under it.
abbrev pub Inside : Text → Text → Type 0
Inside root p = (p ≡ root) ⊎ ((rest : Text) × (p ≡ root ++ b'/' ∷ rest))

-- Nothing but `p` was opened in between.
abbrev pub TouchedOnly : {W : Type 0} → Text → Disk W → Disk W → Type 0
TouchedOnly p st end = (new : List Text) × (end.touched ≡ new ++ st.touched) × All (λ q. q ≡ p) new

-- Between `st` and `end` one path was opened, under the root; or nothing changed, and the answer is an
-- error.
abbrev pub Confined : {W : Type 0} → Text → ToolResult → Disk W → Disk W → Type 0
Confined root result end st =
    ((p : Text) × Inside root p × TouchedOnly p st end) ⊎ ((result.is_error ≡ true) × (end ≡ st))

cons_eq : {c d : ℕ} {s t : Text} → d ≡ c → s ≡ t → ◌≡◌ {A = Text} (d ∷ s) (c ∷ t)
cons_eq a b = cc

starts_with_rest : (s p : Text) → starts_with s p ≡ true → (rest : Text) × (s ≡ p ++ rest)
unfolding starts_with
starts_with_rest s [] h = (s, refl)
starts_with_rest [] (c ∷ p) h = cc
starts_with_rest (d ∷ s) (c ∷ p) h =
    let both : (d ≡ c) × (starts_with s p ≡ true) = ground (arith, h) in
    let (rest, e) = starts_with_rest s p both.1 in (rest, cons_eq both.0 e)

abbrev text_of : Result Text → Text
text_of (ok s) = s
text_of (raised e) = e

passed :
    (a b : Bool) (x y e : Text)
    → (if a || b then ok x else raised e) ≡ ok y
    → (x ≡ y) × ((a ≡ true) ⊎ (b ≡ true))
passed true b x y e h = (ap text_of h, inl refl)
passed false true x y e h = (ap text_of h, inr refl)
passed false false x y e h = cc

module _ {W : Type 0} (fs : FileSystem W) where
  safe_path-Inside :
      (workspace relative p : Text) (w : W)
      → safe_path fs workspace relative w ≡ ok p
      → Inside (fs.realpath workspace w) p
  unfolding safe_path
  safe_path-Inside [] relative p w e = cc
  safe_path-Inside (c ∷ s) relative p w e =
      let root = fs.realpath (c ∷ s) w in
      let resolved = fs.realpath (fs.join (c ∷ s) relative) w in
      let (same, why) =
        passed (starts_with resolved (root ++ b'/' ∷ [])) (text_eq resolved root) _ _ _ e in
      elim why [
        | inl under ↦
            let (rest, split) = starts_with_rest resolved (root ++ b'/' ∷ []) under in
            inr (rest, sym same ∙ split ∙ append_assoc root (b'/' ∷ []) rest)
        | inr at_root ↦ inl (sym same ∙ text_eq→eq resolved root at_root)
      ]

  edit_opened-TouchedOnly :
      (path fpath old new : Text) (opened : Opened) (st : Disk W)
      → TouchedOnly fpath st (edit_opened fs path fpath old new opened (touch fs fpath st)).1
  unfolding edit_opened replaced
  edit_opened-TouchedOnly path fpath old new not_found st = (fpath ∷ [], refl, (refl, tt))
  edit_opened-TouchedOnly path fpath old new (failed e) st = (fpath ∷ [], refl, (refl, tt))
  edit_opened-TouchedOnly path fpath old new (content s) st = elim (Bool-cases (contains old s)) [
    | inl found ↦ rw found (fpath ∷ fpath ∷ [], refl, (refl, (refl, tt)))
    | inr missing ↦ rw missing (fpath ∷ [], refl, (refl, tt))
  ]

  run_at-TouchedOnly :
      (call : FileCall) (fpath : Text) (st : Disk W)
      → TouchedOnly fpath st (run_at fs call fpath st).1
  unfolding run_at
  run_at-TouchedOnly (read_file path) fpath st = (fpath ∷ [], refl, (refl, tt))
  run_at-TouchedOnly (write_file path s) fpath st = (fpath ∷ [], refl, (refl, tt))
  run_at-TouchedOnly (edit_file path old new) fpath st =
      edit_opened-TouchedOnly path fpath old new (fs.read fpath st.world) st

  at_path-Confined :
      (workspace : Text) (call : FileCall) (r : Result Text) (st : Disk W)
      → safe_path fs workspace (path_of call) st.world ≡ r
      → Confined
          (fs.realpath workspace st.world)
          (at_path fs call r st).0
          (at_path fs call r st).1
          st
  at_path-Confined workspace call (ok p) st e =
      inl (p, safe_path-Inside workspace (path_of call) p st.world e, run_at-TouchedOnly call p st)
  at_path-Confined workspace call (raised m) st e = inr (refl, refl)

  -- A call of read_file, write_file or edit_file opens one path only, which is the real path of the
  -- workspace or lies under it; or it opens nothing, changes nothing and answers with an error.
  pub run_call-Confined :
      (workspace : Text) (call : FileCall) (st : Disk W)
      → Confined
          (fs.realpath workspace st.world)
          (run_call fs workspace call st).0
          (run_call fs workspace call st).1
          st
  unfolding run_call
  run_call-Confined workspace call st =
      at_path-Confined workspace call (safe_path fs workspace (path_of call) st.world) st refl
