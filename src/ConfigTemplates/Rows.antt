-- ===== src/ConfigTemplates/Rows.antt =====
-- The row of a channel that `QuickSetupApp` of internal/service/config_template_service.go stores.
use go_pay.Prelude.{
  ℕ, String, Bool, true, false, ◌&&◌, some, [], ◌∷◌, ◌++◌, ◌==◌, eq_iff, eq_refl, ◌≡◌, refl, ap,
  ◌∙◌, inl, inr, arith, find, find_sound, find-update, find-append, update, Option-cases,
  if◌then◌else◌,
}
use go_pay.Models.{ChannelConfig}
use go_pay.Providers.{is_config}
use go_pay.ConfigService.{Registry}
use go_pay.ConfigTemplates.{replace_config, upsert_config}

-- The row of the channel after it is stored.
pub upsert-same :
    (now : ℕ) (app_id channel config : String) (r : Registry)
    → (c : ChannelConfig) × (find
          (is_config app_id channel)
          (upsert_config now app_id channel config r).configs
        ≡ some c)
      × (c.config ≡ config)
      × (c.status ≡ "active")
unfolding upsert_config
upsert-same now app_id channel config r =
    elim (Option-cases (find (is_config app_id channel) r.configs)) [
      | inr (c, f) ↦ (
        replace_config config now c,
        ground (
          arith,
          f,
          find_sound (is_config app_id channel) r.configs f,
          find-update (is_config app_id channel) (is_config app_id channel)
              (replace_config config now) (λ x. refl) r.configs,
        ),
        refl,
        refl,
      )
      | inl f ↦
          let row : ChannelConfig = record {
            id = r.next_config_id;
            app_id = app_id;
            channel = channel;
            config = config;
            status = "active";
            created_at = now;
            updated_at = now;
          } in
          (
            row,
            ground (
              arith,
              f,
              find-append (is_config app_id channel) r.configs (row ∷ []),
              eq_refl app_id,
              eq_refl channel,
            ),
            refl,
            refl,
          )
    ]

abbrev pub is_pair : String → String → String → String → Bool
is_pair a ch app_id channel = (a == app_id) && (ch == channel)

-- Every other row stays as it is.
pub upsert-other :
    (now : ℕ) (app_id channel config a ch : String) (r : Registry)
    → is_pair app_id channel a ch ≡ false
    → find (is_config a ch) (upsert_config now app_id channel config r).configs
      ≡ find (is_config a ch) r.configs
unfolding upsert_config
upsert-other now app_id channel config a ch r other =
    let q = is_config a ch in
    let p = is_config app_id channel in
    elim (Option-cases (find p r.configs)) [
      | inl f ↦
          let row : ChannelConfig = record {
            id = r.next_config_id;
            app_id = app_id;
            channel = channel;
            config = config;
            status = "active";
            created_at = now;
            updated_at = now;
          } in
          let appended : find q (r.configs ++ row ∷ []) ≡ find q r.configs =
            elim (Option-cases (find q r.configs)) [
              | inl g ↦ ground (arith, find-append q r.configs (row ∷ []), g, other)
              | inr (x, g) ↦ ground (arith, find-append q r.configs (row ∷ []), g)
            ] in
          ground (arith, f, appended)
      | inr (c, f) ↦
          let updated : find q (update p (replace_config config now) r.configs) ≡ find q r.configs =
            elim (Option-cases (find q r.configs)) [
              | inl g ↦
                  find-update q p (replace_config config now) (λ x. refl) r.configs ∙ rw g refl
              | inr (x, g) ↦
                  find-update q p (replace_config config now) (λ x. refl) r.configs
                  ∙ rw g (ap some (kept x (find_sound q r.configs g)))
            ] in
          ground (arith, f, updated)
    ]
  where
    kept :
        (x : ChannelConfig)
        → is_config a ch x ≡ true
        → (if is_config app_id channel x then replace_config config now x else x) ≡ x
    kept x h = ground (
      arith,
      h,
      other,
      eq_iff x.app_id a,
      eq_iff x.app_id app_id,
      eq_iff x.channel ch,
      eq_iff x.channel channel,
      eq_iff app_id a,
      eq_iff channel ch,
    )
