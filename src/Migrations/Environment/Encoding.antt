-- ===== src/Migrations/Environment/Encoding.antt =====
-- Which URLs migrations/env.py can hand to Alembic.
use Prim.Native.Char.{Char, code}
use real_time_ai_chat_backen.Base.{
  ◌≡◌, ◌∙◌, refl, ap, String, Bool, true, false, not, ◌&&◌, Option, none, some, List, [], ◌∷◌, ◌++◌,
  arith, ◌==◌, if◌then◌else◌, Bool-cases, inl, inr,
}
use real_time_ai_chat_backen.Errors.{value_error, ok, err}
use real_time_ai_chat_backen.Redaction.{replace, replace_from}
use real_time_ai_chat_backen.Migrations.Environment.{
  without_keys, has_percent, is_refused, interpolate, with_first, Faults, Options, Effect,
  connected, configured, began, migrated, committed, disconnected, disposed, run_migrations_offline,
  run_migrations_online, do_run_migrations, run_in_transaction, environment,
}

-- What follows a percent sign is neither another one nor a parenthesis, as in an octet that is
-- percent-encoded.
abbrev pub is_encoded : String → Bool
is_encoded String.[] = true
is_encoded (String.◌∷◌ c s) = not (code c == 37) && not (code c == 40)

-- The first percent sign of the text is that of an encoded octet.
abbrev pub has_encoded : String → Bool
has_encoded String.[] = false
has_encoded (String.◌∷◌ c s) = if code c == 37 then is_encoded s else has_encoded s

abbrev cleared : String → String
cleared s = without_keys 0 (replace_from "%%" "" 0 s)

-- A character that is no percent sign stays.
cleared-cons :
    (c : Char) (s : String)
    → (code c == 37) ≡ false
    → cleared (String.◌∷◌ c s) ≡ String.◌∷◌ c (cleared s)
unfolding replace_from without_keys
cleared-cons c s h = ground (arith, h)

cleared-encoded :
    (c : Char) (s : String)
    → (code c == 37) ≡ true
    → is_encoded s ≡ true
    → has_percent (cleared (String.◌∷◌ c s)) ≡ true
unfolding replace_from without_keys
cleared-encoded c String.[] h k = ground (arith, h)
cleared-encoded c (String.◌∷◌ d s) h k = ground (arith, h, k)

refused_of : (url : String) → has_encoded url ≡ true → is_refused url ≡ true
unfolding is_refused replace
refused_of String.[] h = absurd (cc)
refused_of (String.◌∷◌ c s) h = elim (Bool-cases (code c == 37)) [
  | inl percent ↦ cleared-encoded c s percent (ground (arith, h, percent))
  | inr other ↦
      rw (cleared-cons c s other) (ground (arith, refused_of s (ground (arith, h, other))))
]

cleared_same : (url : String) → has_percent url ≡ false → cleared url ≡ url
unfolding replace_from without_keys
cleared_same String.[] h = refl
cleared_same (String.◌∷◌ c s) h =
    cleared-cons c s (ground (arith, h)) ∙ ap (String.◌∷◌ c) (cleared_same s (ground (arith, h)))

interpolate_same :
    (option : String → Option String) (url : String)
    → has_percent url ≡ false
    → interpolate option 0 url ≡ some url
unfolding interpolate
interpolate_same option String.[] h = refl
interpolate_same option (String.◌∷◌ c s) h =
    ground (arith, h, ap (with_first c) (interpolate_same option s (ground (arith, h))))

accepted_of : (url : String) → has_percent url ≡ false → is_refused url ≡ false
unfolding is_refused replace
accepted_of url h = rw (cleared_same url h) h

module _ (faults : Faults) (option : String → Option String) (offline : Bool) (url : String) where
  -- A database URL whose first percent sign is that of an encoded octet, as in a password with an
  -- at sign, is not taken by the environment of the migrations, which ends in a `ValueError` before
  -- it connects or runs anything, in both modes.
  pub environment_refused :
      has_encoded url ≡ true
      → environment faults option offline url
        ≡ (err (value_error "invalid interpolation syntax"), [])
  unfolding environment
  environment_refused h = rw (refused_of url h) refl

abbrev pub written : String → Options
written url = record {
  url = some url;
  literal_binds = true;
  named_parameters = true;
  compare_type = true;
  compare_server_default = true;
}

abbrev pub live : Options
live = record {
  url = none;
  literal_binds = false;
  named_parameters = false;
  compare_type = true;
  compare_server_default = true;
}

abbrev pub done : List Effect
done = began ∷ migrated ∷ committed ∷ []

-- Without a percent sign in the URL and without a failure, the migrations run once, in one
-- transaction, which is committed: offline for the URL, and online over a connection to it, which
-- is closed in the end.
pub environment_migrates :
    (option : String → Option String) (url : String)
    → has_percent url ≡ false
    → let faults : Faults = record { connect_fails = false; migrate_fails = false } in
      (environment faults option true url ≡ (ok tt, configured (written url) ∷ done))
      × (environment faults option false url
          ≡ (ok tt, connected url ∷ configured live ∷ done ++ disconnected ∷ disposed ∷ []))
unfolding environment run_migrations_offline run_migrations_online do_run_migrations
    run_in_transaction
environment_migrates option url h =
    rw (accepted_of url h, interpolate_same option url h) (refl, refl)
