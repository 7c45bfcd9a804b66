-- ===== src/Cache/Config/Refusals.antt =====
-- Why `resolve_config` of feuer/src/cache.rs refuses a configuration, and what it accepts.
use mathlib.Core.Path.{subst}
use feuer.Base.{
  ℕ, ◌<◌, ◌≡◌, ◌≢◌, ◌≤◌, ◌⊎◌, ltb, inl, inr, refl, ap, sym, ◌∙◌, List, ◌++◌, Option, none, some,
  true, false, ◌==◌, arith, ==_iff, Bool-cases, Option-cases,
}
use feuer.Storage.Io.DataFile.Opening.{
  reserved_prefix, lock_name, lock_name-injective, lock_suffix, data_file_name, same_bytes,
}
use feuer.Cache.Config.Names.{
  IsWrongName, starts_with-append, starts_with-rest, refused-IsWrongName, accepted-name,
}
use feuer.Cache.Config.{
  invalid_file_name, invalid_memory_capacity, invalid_reclaim_sample_size,
  invalid_access_count_half_life, invalid_history_entry_limit, CacheConfig, CacheBuilder,
  Environment, starts_with, read_env_number, parse_config_number, is_file_name, explicit_or_env,
  Resolved, resolved, refused, config_of, finish_config, resolve_config,
}

-- The number that a setting has: the builder's, the environment's if the builder has none, or the
-- default if neither has any.
abbrev pub IsSetting : (List ℕ → Option ℕ) → Option ℕ → Option (List ℕ) → ℕ → ℕ → Type 0
IsSetting parse explicit variable default n =
    (explicit ≡ some n)
    ⊎ ((explicit ≡ none) × (variable ≡ none) × (n ≡ default))
    ⊎ ((explicit ≡ none)
        × (text : List ℕ) × (variable ≡ some text)
        × (parse text ≡ some n)
        × (n < 18446744073709551616))

-- What is wrong with a setting: the builder's zero, or a text in the environment, which counts if the
-- builder has none, that is no number, zero, or no 64-bit number.
abbrev pub IsWrongSetting : (List ℕ → Option ℕ) → Option ℕ → Option (List ℕ) → Type 0
IsWrongSetting parse explicit variable =
    (explicit ≡ some 0)
    ⊎ ((explicit ≡ none)
        × (text : List ℕ) × (variable ≡ some text)
        × ((parse text ≡ none)
            ⊎ (parse text ≡ some 0)
            ⊎ ((n : ℕ) × (parse text ≡ some n) × (18446744073709551616 ≤ n))))

module _ (parse : List ℕ → Option ℕ) where
  read-cases :
      (explicit : Option ℕ) (variable : Option (List ℕ)) (default : ℕ)
      → 0 < default
      → ((n : ℕ) × (explicit_or_env parse explicit variable default ≡ some n)
          × IsSetting parse explicit variable default n
          × ((n ≡ 0) → IsWrongSetting parse explicit variable))
        ⊎ ((explicit_or_env parse explicit variable default ≡ none)
            × IsWrongSetting parse explicit variable)
  unfolding read_env_number parse_config_number
  read-cases (some n) variable default d = inl (n, refl, inl refl, λ z. inl (ap some z))
  read-cases none none default d =
      inl (default, refl, inr (inl (refl, refl, refl)), λ z. absurd (omega (arith, z, d)))
  read-cases none (some text) default d = elim (Option-cases (parse text)) [
    | inl e ↦ inr (rw (e, parse_config_number) refl, inr (refl, text, refl, inl e))
    | inr (n, e) ↦ elim (Bool-cases (ltb n 1)) [
      | inl b ↦
          let z : n ≡ 0 = ground (arith, b) in
          inr
            (rw (e, b, parse_config_number) refl, inr (refl, text, refl, inr (inl (e ∙ ap some z))))
      | inr b ↦ elim (Bool-cases (ltb n 18446744073709551616)) [
        | inr c ↦
            let large : 18446744073709551616 ≤ n = ground (arith, c) in
            inr (
              rw (e, b, c, parse_config_number) refl,
              inr (refl, text, refl, inr (inr (n, e, large))),
            )
        | inl c ↦
            let positive : 0 < n = ground (arith, b) in
            let small : n < 18446744073709551616 = ground (arith, c) in
            inl (
              n,
              rw (e, b, c, parse_config_number) refl,
              inr (inr (refl, text, refl, e, small)),
              λ z. absurd (omega (arith, z, positive)),
            )
      ]
    ]
  ]

module _ (parse : List ℕ → Option ℕ) (env : Environment) (b : CacheBuilder) where
  abbrev sample_size : Option ℕ
  sample_size = explicit_or_env parse b.reclaim_sample_size env.sample_size_setting 64

  abbrev half_life : Option ℕ
  half_life = explicit_or_env parse b.access_count_half_life env.half_life_setting 262144

  abbrev entry_limit : Option ℕ
  entry_limit = explicit_or_env parse b.history_entry_limit env.entry_limit_setting 2000000

  -- An accepted configuration, field by field.
  pub record IsAccepted (c : CacheConfig) : Type 0 where
    pub some_memory : 0 < b.memory_capacity
    pub right_name : IsWrongName b.file_name → ⊥
    pub some_samples : 0 < c.reclaim_sample_size
    pub samples :
        IsSetting parse b.reclaim_sample_size env.sample_size_setting 64 c.reclaim_sample_size
    pub some_half_life : 0 < c.access_count_half_life
    pub half_life_setting :
        IsSetting parse b.access_count_half_life env.half_life_setting 262144
          c.access_count_half_life
    pub some_history : 0 < c.history_entry_limit
    pub history :
        IsSetting parse b.history_entry_limit env.entry_limit_setting 2000000 c.history_entry_limit
    pub same_directory : c.directory ≡ b.directory
    pub same_name : c.file_name ≡ b.file_name
    pub same_version : c.payload_version ≡ b.payload_version
    pub same_disk : c.disk_capacity ≡ b.disk_capacity
    pub same_memory : c.memory_capacity ≡ b.memory_capacity

  -- Why a configuration is refused, or what it is.
  abbrev pub IsRight : Resolved → Type 0
  IsRight (refused invalid_memory_capacity) = b.memory_capacity ≡ 0
  IsRight (refused invalid_file_name) = IsWrongName b.file_name
  IsRight (refused invalid_reclaim_sample_size) =
      IsWrongSetting parse b.reclaim_sample_size env.sample_size_setting
  IsRight (refused invalid_access_count_half_life) =
      IsWrongSetting parse b.access_count_half_life env.half_life_setting
  IsRight (refused invalid_history_entry_limit) =
      IsWrongSetting parse b.history_entry_limit env.entry_limit_setting
  IsRight (resolved c) = IsAccepted c

  by_result :
      (r : Resolved)
      → resolve_config parse env b ≡ r
      → IsRight r
      → IsRight (resolve_config parse env b)
  by_result r e h = subst (λ (x : Resolved). IsRight x) (sym e) h

  -- The last part: all settings are read, and the memory and the name are right.
  with_settings :
      (n h l : ℕ)
      → (b.memory_capacity == 0) ≡ false
      → is_file_name b.file_name ≡ true
      → sample_size ≡ some n
      → (n == 0) ≡ false
      → half_life ≡ some h
      → entry_limit ≡ some l
      → IsSetting parse b.reclaim_sample_size env.sample_size_setting 64 n
      → IsSetting parse b.access_count_half_life env.half_life_setting 262144 h
      → (h ≡ 0 → IsWrongSetting parse b.access_count_half_life env.half_life_setting)
      → IsSetting parse b.history_entry_limit env.entry_limit_setting 2000000 l
      → (l ≡ 0 → IsWrongSetting parse b.history_entry_limit env.entry_limit_setting)
      → IsRight (resolve_config parse env b)
  unfolding resolve_config
  with_settings n h l z f s p t u sn sh wh sl wl =
      let read : resolve_config parse env b ≡ finish_config b n h l =
        rw (z, f, s, p, t, u, resolve_config) refl in
      elim (Bool-cases (h == 0)) [
        | inl x ↦
            by_result (refused invalid_access_count_half_life) (read ∙ rw (x, finish_config) refl)
              (wh ((==_iff h 0).0 x))
        | inr x ↦ elim (Bool-cases (l == 0)) [
          | inl y ↦
              by_result (refused invalid_history_entry_limit) (read ∙ rw (x, y, finish_config) refl)
                (wl ((==_iff l 0).0 y))
          | inr y ↦
              by_result (resolved (config_of b n h l)) (read ∙ rw (x, y, finish_config) refl)
                (record {
                  some_memory = ground (arith, z);
                  right_name = accepted-name b.file_name f;
                  some_samples = ground (arith, p);
                  samples = sn;
                  some_half_life = ground (arith, x);
                  half_life_setting = sh;
                  some_history = ground (arith, y);
                  history = sl;
                  same_directory = refl;
                  same_name = refl;
                  same_version = refl;
                  same_disk = refl;
                  same_memory = refl;
                })
        ]
      ]

  -- A configuration is refused only for the setting that the error names: no memory; a file name that is
  -- empty, "." or "..", has a separator or a NUL byte, or the reserved prefix; or a number that is zero
  -- or, in the environment, unreadable or too large. An accepted one has no such fault, all the
  -- builder's settings, and for each number the builder's, the environment's where the builder has none,
  -- or the default where neither has any, all positive.
  pub resolve_config-IsRight : IsRight (resolve_config parse env b)
  unfolding resolve_config
  resolve_config-IsRight = elim (Bool-cases (b.memory_capacity == 0)) [
    | inl z ↦
        by_result (refused invalid_memory_capacity) (rw (z, resolve_config) refl) ((==_iff _ 0).0 z)
    | inr z ↦ elim (Bool-cases (is_file_name b.file_name)) [
      | inr f ↦
          by_result (refused invalid_file_name) (rw (z, f, resolve_config) refl)
            (refused-IsWrongName b.file_name f)
      | inl f ↦
          elim (read-cases parse b.reclaim_sample_size env.sample_size_setting 64 (omega arith)) [
            | inr (s, w) ↦
                by_result (refused invalid_reclaim_sample_size) (rw (z, f, s, resolve_config) refl)
                  w
            | inl (n, s, sn, wn) ↦ elim (Bool-cases (n == 0)) [
              | inl p ↦
                  by_result (refused invalid_reclaim_sample_size)
                    (rw (z, f, s, p, resolve_config) refl) (wn ((==_iff n 0).0 p))
              | inr p ↦
                  elim (read-cases parse b.access_count_half_life env.half_life_setting 262144
                    (omega arith)) [
                      | inr (t, w) ↦
                          by_result (refused invalid_access_count_half_life)
                            (rw (z, f, s, p, t, resolve_config) refl) w
                      | inl (h, t, sh, wh) ↦
                          elim (read-cases parse b.history_entry_limit env.entry_limit_setting
                            2000000 (omega arith)) [
                              | inr (u, w) ↦
                                  by_result (refused invalid_history_entry_limit)
                                    (rw (z, f, s, p, t, u, resolve_config) refl) w
                              | inl (l, u, sl, wl) ↦ with_settings n h l z f s p t u sn sh wh sl wl
                            ]
                    ]
            ]
          ]
    ]
  ]

lock_name-reserved : (name : List ℕ) → starts_with (lock_name name) reserved_prefix ≡ true
unfolding lock_name
lock_name-reserved name = elim (Bool-cases (same_bytes name data_file_name)) [
  | inl e ↦ rw e refl
  | inr e ↦ rw e (starts_with-append reserved_prefix (name ++ lock_suffix))
]

-- The data file of an accepted configuration is not the lock file of any data file, and shares its
-- own lock file with no other one.
pub resolve_config-separate :
    (parse : List ℕ → Option ℕ) (env : Environment) (b : CacheBuilder) (c : CacheConfig)
    (other : List ℕ)
    → resolve_config parse env b ≡ resolved c
    → (c.file_name ≢ lock_name other)
      × (c.file_name ≢ other → lock_name c.file_name ≢ lock_name other)
resolve_config-separate parse env b c other e =
    let right : IsRight parse env b (resolved c) =
      subst (λ (x : Resolved). IsRight parse env b x) e (resolve_config-IsRight parse env b) in
    (
      λ q.
          let (rest, p) =
            starts_with-rest (lock_name other) reserved_prefix (lock_name-reserved other) in
          right.right_name (inr (inr (inr (inr (inr (rest, sym right.same_name ∙ q ∙ p)))))),
      λ n q. n (lock_name-injective c.file_name other q),
    )
