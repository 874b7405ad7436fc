-- ===== src/Pairing/Fields.antt =====
-- What a patch of a team's CONFIG leaves to read: `patch_team_config`, then `load_team_config`.
use text.Mathlib.TextEquality.{eq_iff}
use mathlib.Core.Path.{subst}
use ddochi_backend.Prelude.{
  ◌≡◌, refl, ap, Bool-cases, String, Bool, true, false, none, some, List, [], ◌∷◌, not, ◌||◌, all,
  inl, inr, Option-cases, arith,
}
use ddochi_backend.Prelude.Text.{str_eq}
use ddochi_backend.Prelude.Rows.{find_row, find_row-update_row, find_row-update_row_ne}
use ddochi_backend.Pairing.Channels.{ChannelDef, find_def, channel_def, channel_defs, title_key}
use ddochi_backend.Pairing.Config.{
  Value, null, str, json, empty_config, Config, ConfigRow, Patch, merge_key, merge_patch,
  patch_config, merge_found, patch_row, patch_team_config, load_team_config, config_key, get_value,
}
use ddochi_backend.Pairing.Admin.{last_message}
use ddochi_backend.Pairing.Complete.{message_patch}

abbrev pub has_key : String → Patch → Bool
has_key j [] = false
has_key j ((k, v) ∷ more) = str_eq k j || has_key j more

merge_patch-other :
    (j : String) (p : Patch) (cfg : Config) → has_key j p ≡ false → merge_patch p cfg j ≡ cfg j
unfolding merge_patch
merge_patch-other j [] cfg h = refl
merge_patch-other j ((k, null) ∷ more) cfg h =
    ground (arith, merge_patch-other j more (merge_key k null cfg))
merge_patch-other j ((k, str v) ∷ more) cfg h =
    ground (arith, merge_patch-other j more (merge_key k (str v) cfg))
merge_patch-other j ((k, json v) ∷ more) cfg h =
    ground (arith, merge_patch-other j more (merge_key k (json v) cfg))

patch_config-other : (j : String) (p : Patch) → has_key j p ≡ false → patch_config p j ≡ none
unfolding patch_config
patch_config-other j [] h = refl
patch_config-other j ((k, v) ∷ more) h = ground (arith, patch_config-other j more)

merge_patch-first :
    (k : String) (v : Value) (more : Patch) (cfg : Config)
    → has_key k more ≡ false
    → get_value k (merge_patch ((k, v) ∷ more) cfg) ≡ v
unfolding merge_patch
merge_patch-first k null more cfg h =
    ground (arith, eq_iff k k, merge_patch-other k more (merge_key k null cfg) h)
merge_patch-first k (str s) more cfg h =
    ground (arith, eq_iff k k, merge_patch-other k more (merge_key k (str s) cfg) h)
merge_patch-first k (json s) more cfg h =
    ground (arith, eq_iff k k, merge_patch-other k more (merge_key k (json s) cfg) h)

patch_config-first :
    (k : String) (v : Value) (more : Patch)
    → has_key k more ≡ false
    → get_value k (patch_config ((k, v) ∷ more)) ≡ v
unfolding patch_config
patch_config-first k v more h = ground (arith, eq_iff k k, patch_config-other k more h)

-- The team has no row, or one that is not deleted.
unfoldable pub is_live : String → List ConfigRow → Bool
is_live t rows = elim (find_row config_key t rows) [ none ↦ true | some r ↦ not r.deleted ]

-- The first key of a patch reads back as the patch has it.
pub load-patch :
    (t k : String) (v : Value) (more : Patch) (rows : List ConfigRow)
    → is_live t rows ≡ true
    → has_key k more ≡ false
    → get_value k (load_team_config t (patch_team_config t ((k, v) ∷ more) rows)) ≡ v
unfolding is_live load_team_config patch_team_config merge_found find_row
load-patch t k v more rows live h = elim (Option-cases (find_row config_key t rows)) [
  | inl e ↦
      let same : str_eq t t ≡ true = (eq_iff t t).1 refl in
      rw (e, same) (patch_config-first k v more h)
  | inr (r, e) ↦
      let kept : r.deleted ≡ false = ground (arith, (rw (e, is_live) at live)) in
      rw (e, find_row-update_row config_key t (patch_row ((k, v) ∷ more)) rows (λ r. refl), e, kept)
        (merge_patch-first k v more r.config h)
]

-- The other teams' configurations stay.
pub load-patch_ne :
    (t u : String) (p : Patch) (rows : List ConfigRow)
    → str_eq t u ≡ false
    → load_team_config u (patch_team_config t p rows) ≡ load_team_config u rows
unfolding load_team_config patch_team_config merge_found find_row
load-patch_ne t u p rows n = elim (Option-cases (find_row config_key t rows)) [
  | inl e ↦ rw (e, n)
  | inr (r, e) ↦ rw (e, find_row-update_row_ne config_key t u (patch_row p) rows (λ r. refl) n)
]

get_value-same : (k : String) (a b : Config) → a k ≡ b k → get_value k a ≡ get_value k b
get_value-same k a b h = ground arith

-- The other keys stay, whether the row is deleted or not.
pub load-patch_keeps :
    (t u k : String) (p : Patch) (rows : List ConfigRow)
    → has_key k p ≡ false
    → get_value k (load_team_config u (patch_team_config t p rows))
      ≡ get_value k (load_team_config u rows)
unfolding load_team_config patch_team_config merge_found find_row
load-patch_keeps t u k p rows h = elim (Bool-cases (str_eq t u)) [
  | inr other ↦ ap (get_value k) (load-patch_ne t u p rows other)
  | inl same ↦
      subst
        (λ x.
          get_value k (load_team_config x (patch_team_config t p rows))
          ≡ get_value k (load_team_config x rows))
        ((eq_iff t u).0 same)
        (elim (Option-cases (find_row config_key t rows)) [
          | inl e ↦
              let here : str_eq t t ≡ true = (eq_iff t t).1 refl in
              rw (e, here)
                (get_value-same k (patch_config p) empty_config (patch_config-other k p h))
          | inr (r, e) ↦
              rw (e, find_row-update_row config_key t (patch_row p) rows (λ r. refl), e)
                (elim (Bool-cases r.deleted) [
                  | inl gone ↦ rw gone refl
                  | inr here ↦ rw here (
                      get_value-same k (merge_patch p r.config) r.config
                        (merge_patch-other k p r.config h))
                ])
        ])
]

-- The key of a channel's chat is not among the other keys that its patches name.
unfoldable pub is_distinct : ChannelDef → Bool
is_distinct d = not (has_key d.field ((title_key d.field, null) ∷ last_message d))

-- The keys that the first messages of dashboards write
abbrev message_keys : List String
message_keys =
    "lastProspectMsgId" ∷ "lastMatchingMsgId" ∷ "lastStatsMsgId" ∷ "lastStatsMsgDate"
    ∷ "lastShedMsgId" ∷ "lastShedMsgDate" ∷ "lastTmMsgId" ∷ "lastTmMsgDate" ∷ "lastSchedMsgId"
    ∷ "lastSchedMsgDate" ∷ []

-- Nor among the keys that the first message of a dashboard writes.
abbrev nulls : List String → Patch
nulls [] = []
nulls (k ∷ ks) = (k, null) ∷ nulls ks

unfoldable pub is_clear : ChannelDef → Bool
is_clear d = not (has_key d.field (nulls message_keys))

clear-patch :
    (d : ChannelDef) (channel i day : String)
    → is_clear d ≡ true
    → has_key d.field (message_patch channel i day) ≡ false
unfolding is_clear message_patch
clear-patch d channel i day h = elim (Bool-cases (str_eq channel "prospect")) [
  | inl a ↦ rw a (ground arith)
  | inr a ↦ elim (Bool-cases (str_eq channel "matching")) [
    | inl b ↦ rw (a, b) (ground arith)
    | inr b ↦ elim (Bool-cases (str_eq channel "stats")) [
      | inl c ↦ rw (a, b, c) (ground arith)
      | inr c ↦ elim (Bool-cases (str_eq channel "shedUnified")) [
        | inl e ↦ rw (a, b, c, e) (ground arith)
        | inr e ↦ elim (Bool-cases (str_eq channel "tmDash")) [
          | inl f ↦ rw (a, b, c, e, f) (ground arith)
          | inr f ↦ rw (a, b, c, e, f) (ground arith)
        ]
      ]
    ]
  ]
]

find_def-all :
    (test : ChannelDef → Bool) (k : String) (ds : List (String × ChannelDef)) {d : ChannelDef}
    → all (λ e. test e.1) ds ≡ true
    → find_def k ds ≡ some d
    → test d ≡ true
unfolding find_def
find_def-all test k [] h found = cc
find_def-all test k ((name, e) ∷ ds) {d} h found = ground (arith, find_def-all test k ds {d = d})

all_distinct : all (λ e. is_distinct e.1) channel_defs ≡ true
unfolding is_distinct channel_defs title_key
all_distinct = refl

pub channel_def-distinct :
    (k : String) {d : ChannelDef} → channel_def k ≡ some d → is_distinct d ≡ true
unfolding channel_def
channel_def-distinct k found = find_def-all is_distinct k channel_defs all_distinct found

all_clear : all (λ e. is_clear e.1) channel_defs ≡ true
unfolding is_clear channel_defs
all_clear = refl

pub message-clear :
    (k channel i day : String) {d : ChannelDef}
    → channel_def k ≡ some d
    → has_key d.field (message_patch channel i day) ≡ false
unfolding channel_def
message-clear k channel i day {d} found =
    clear-patch d channel i day (find_def-all is_clear k channel_defs all_clear found)
