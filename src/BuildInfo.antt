-- ===== src/BuildInfo.antt =====
-- crates/cmd/src/build_info.rs: the version that the command shows. What the build script found is
-- a parameter: the package's version, and the commit's hash and state if git was there.
use filestore.Base.{
  ◌⊎◌, if_elim, Bool-cases, inl, inr, ◌≡◌, ◌≢◌, ◌↔◌, refl, ap, Bool, true, false, [], ◌++◌, Option,
  none, some, if◌then◌else◌, length, length-append, arith,
}
use filestore.Text.{Text, codes, is_empty}

pub record Built : Type 0 where
  pub pkg_version : Text
  pub git_commit_hash_short : Option Text
  pub git_dirty : Option Bool
  -- `KISEKI_RELEASE`
  pub kiseki_release : Option Text

unfoldable pub is_official_release : Built → Bool
is_official_release b = elim b.kiseki_release [ none ↦ false | some _ ↦ true ]

unfoldable pub commit_hash : Built → Text
commit_hash b = elim b.git_commit_hash_short [ none ↦ [] | some hash ↦ hash ]

unfoldable pub dirty_suffix : Built → Text
dirty_suffix b = elim b.git_dirty [ none ↦ [] | some dirty ↦ if dirty then codes "-dirty" else [] ]

unfoldable pub full_version : Built → Text
unfolding is_official_release commit_hash dirty_suffix is_empty
full_version b =
    if is_official_release b
    then b.pkg_version
    else if is_empty (commit_hash b)
    then b.pkg_version ++ codes "-unofficial"
    else b.pkg_version ++ codes "-unofficial+" ++ commit_hash b ++ dirty_suffix b

-- The version of a build that is not official.
unofficial : Built → Text
unfolding commit_hash dirty_suffix is_empty
unofficial b =
    if is_empty (commit_hash b)
    then b.pkg_version ++ codes "-unofficial"
    else b.pkg_version ++ codes "-unofficial+" ++ commit_hash b ++ dirty_suffix b

longer : (v t u : Text) → v ++ codes "-unofficial+" ++ t ++ u ≢ v
longer v t u h =
    let lengths : length (v ++ codes "-unofficial+" ++ t ++ u) ≡ length v = ap length h in
    omega (
      arith,
      lengths,
      length-append (v ++ codes "-unofficial+" ++ t) u,
      length-append (v ++ codes "-unofficial+") t,
      length-append v (codes "-unofficial+"),
    )

longer_plain : (v : Text) → v ++ codes "-unofficial" ≢ v
longer_plain v h =
    let lengths : length (v ++ codes "-unofficial") ≡ length v = ap length h in
    omega (arith, lengths, length-append v (codes "-unofficial"))

unofficial-ne : (b : Built) → unofficial b ≢ b.pkg_version
unfolding unofficial
unofficial-ne b =
    if_elim (λ t. t ≢ b.pkg_version) (is_empty (commit_hash b)) (λ _. longer_plain b.pkg_version)
      (λ _. longer b.pkg_version (commit_hash b) (dirty_suffix b))

abbrev pub is_dirty : Built → Bool
is_dirty b = elim b.git_dirty [ none ↦ false | some dirty ↦ dirty ]

choice_iff : (v t : Text) (o : Bool) → t ≢ v → ((if o then v else t) ≡ v) ↔ (o ≡ true)
choice_iff v t true differ = (λ _. refl, λ _. refl)
choice_iff v t false differ = (λ h. absurd (differ h), λ h. cc)

suffix_lem :
    (d : Option Bool)
    → (elim d [ none ↦ [] | some dirty ↦ if dirty then codes "-dirty" else [] ])
      ≡ (if elim d [ none ↦ false | some dirty ↦ dirty ] then codes "-dirty" else [])
suffix_lem none = refl
suffix_lem (some dirty) = refl

-- Only an official build shows the plain version of the package. Of the others, a build whose
-- commit is known shows it, with the mark for uncommitted changes.
pub full_version_iff :
    (b : Built)
    → ((full_version b ≡ b.pkg_version) ↔ (is_official_release b ≡ true))
      × ((is_official_release b ≡ true)
          ⊎ ((is_empty (commit_hash b) ≡ true)
              ⊎ (full_version b
                  ≡ b.pkg_version
                    ++ codes "-unofficial+"
                    ++ commit_hash b
                    ++ (if is_dirty b then codes "-dirty" else []))))
unfolding full_version unofficial dirty_suffix
full_version_iff b = (
  choice_iff b.pkg_version (unofficial b) (is_official_release b) (unofficial-ne b),
  elim (Bool-cases (is_official_release b)) [
    | inl official ↦ inl official
    | inr other ↦ elim (Bool-cases (is_empty (commit_hash b))) [
      | inl unknown ↦ inr (inl unknown)
      | inr known ↦ inr (
          inr (
            rw (other, known)
              (ap (λ t. b.pkg_version ++ codes "-unofficial+" ++ commit_hash b ++ t)
                (suffix_lem b.git_dirty))))
    ]
  ],
)
