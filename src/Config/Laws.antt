-- ===== src/Config/Laws.antt =====
-- What a loaded configuration satisfies, and when there is none.
use slash.Base.{
  ◌≡◌, ◌<◌, ◌⊎◌, inl, inr, refl, Bool, true, false, Option, none, some, ltb→lt, lt→ltb, Bool-cases,
  Option-cases,
}
use slash.Prefix.Cidr.{Text}
use slash.Config.{
  Config, FileLoggingConfig, default_config_path, default_config, validate, LoadError, not_found,
  failed_to_load, extract, load,
}

-- The rotation limit is not zero where logs go to a file.
abbrev pub HasLimit : Config → Type 0
HasLimit c =
    (c.logging.file ≡ none)
    ⊎ ((file : FileLoggingConfig) × (c.logging.file ≡ some file) × (0 < file.max_file_size_mb))

validate-HasLimit : (c : Config) → validate c ≡ true → HasLimit c
unfolding validate
validate-HasLimit c e = elim (Option-cases c.logging.file) [
  | inl h ↦ inl h
  | inr (file, h) ↦ let e' = rw h at e in inr (file, h, ltb→lt 0 file.max_file_size_mb e')
]

not-HasLimit : (c : Config) → validate c ≡ false → ¬ HasLimit c
unfolding validate
not-HasLimit c e (inl h) = let e' = rw h at e in cc
not-HasLimit c e (inr (file, h, above)) =
    let e' = rw h at e in let e'' = rw (lt→ltb 0 file.max_file_size_mb above) at e' in cc

module _ (exists : Text → Bool) (figment : Config → Text → Option Config) where
  -- The path that is read.
  abbrev pub path_of : Option Text → Text
  path_of none = default_config_path
  path_of (some path) = path

  -- A given path exists; the default one need not.
  abbrev pub IsThere : Option Text → Type 0
  IsThere none = Unit
  IsThere (some path) = exists path ≡ true

  -- Just when `load` comes to what.
  abbrev pub IsLoaded : Option Text → LoadError ⊎ Config → Type 0
  IsLoaded p (inl not_found) = (path : Text) × (p ≡ some path) × (exists path ≡ false)
  IsLoaded p (inl failed_to_load) =
      IsThere p
      × ((figment default_config (path_of p) ≡ none)
          ⊎ ((c : Config) × (figment default_config (path_of p) ≡ some c) × (¬ HasLimit c)))
  IsLoaded p (inr c) = IsThere p × (figment default_config (path_of p) ≡ some c) × HasLimit c

  extracted :
      (p : Option Text)
      → IsThere p
      → IsLoaded p (elim (extract exists figment (path_of p)) [
        | none ↦ inl failed_to_load
        | some config ↦ inr config
      ])
  unfolding extract
  extracted p there = elim (Option-cases (figment default_config (path_of p))) [
    | inl h ↦ rw h (there, inl h)
    | inr (c, h) ↦ elim (Bool-cases (validate c)) [
      | inl good ↦ rw (h, good) (there, h, validate-HasLimit c good)
      | inr bad ↦ rw (h, bad) (there, inr (c, h, not-HasLimit c bad))
    ]
  ]

  -- Load returns that a path was not found just where a path is given that does not exist.
  -- Otherwise it returns that it failed to load just where nothing can be read from the path, the
  -- default one where none is given, or where logs go to a file in what is read and the rotation
  -- limit is zero; and else it returns what is read.
  pub load-IsLoaded : (p : Option Text) → IsLoaded p (load exists figment p)
  unfolding load
  load-IsLoaded none = extracted none tt
  load-IsLoaded (some path) = elim (Bool-cases (exists path)) [
    | inl there ↦ rw there (extracted (some path) there)
    | inr missing ↦ rw missing (path, refl, missing)
  ]
