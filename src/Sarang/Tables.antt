-- ===== src/Sarang/Tables.antt =====
-- The rows of SARANG, SARANG_HAB_JAE_YANG, SARANG_MATCH_HISTORIES, TM_LOGS and
-- SARANG_ACTIVITY_LOGS (`sql/07_sarang.sql`, `sql/11_match_result_codes.sql`), as far as the
-- operations below read or write them. A time of the database is a text.
use ddochi_backend.Prelude.{ℕ, String, Bool, Option, none, some, List, [], ◌∷◌, ◌&&◌, if◌then◌else◌}
use ddochi_backend.Prelude.Text.{str_eq}

-- STAGE, in the order of the funnel
pub data Stage : Type 0 where
  inflow tm meeting_fixed hab_jae_yang approval matching consult : Stage
  later_stage : Stage

-- 성홀, 성따, 복방 and 센 come after 상따; no operation here writes them.
abbrev pub stage_rank : Stage → ℕ
stage_rank inflow = 0
stage_rank tm = 1
stage_rank meeting_fixed = 2
stage_rank hab_jae_yang = 3
stage_rank approval = 4
stage_rank matching = 5
stage_rank consult = 6
stage_rank later_stage = 7

pub record Sarang : Type 0 where
  pub sarang_id : String
  pub inflow_member_id : String
  pub stage : Stage
  pub mbti : Option String
  pub gender : Option String
  pub age : Option String
  -- NAME, PHONE, PHONE_NORMALIZED and RESIDENCE_STATION of the row of SARANG_PERSONAL_INFO that
  -- belongs to it
  pub name : String
  pub phone : String
  pub phone_normalized : String
  pub station : Option String
  pub deleted : Bool

pub data ApprovalStatus : Type 0 where
  pending approved rejected : ApprovalStatus

pub data HjColumn : Type 0 where
  school_major_job schedule environment_1y application_purpose self_image desired_image : HjColumn
  character_note alert_note distance_burden qna etc : HjColumn

pub record HabJaeYang : Type 0 where
  pub hab_jae_yang_id : String
  pub sarang_id : String
  pub is_active : Bool
  pub guide_member_id : Option String
  pub caller_member_id : Option String
  pub teacher_member_id : Option String
  pub teacher_name_override : Option String
  pub match_scheduled_at : Option String
  pub match_location : Option String
  pub route : Option String
  pub tool : Option String
  pub is_verbal_meet : Bool
  pub gwacheon_travel_time : Option ℕ
  pub gwacheon_transfer_count : Option ℕ
  pub center_travel_time : Option ℕ
  pub center_transfer_count : Option ℕ
  pub cell : HjColumn → Option String
  pub has_center_env : Bool
  pub is_taking_meds : Bool
  pub has_mental_illness : Bool
  pub has_replied : Bool
  pub is_window_opened : Bool
  pub approval_status : ApprovalStatus
  pub reject_reason : Option String

-- RESULT of an attempt
pub data MatchResult : Type 0 where
  cancel delay unfit dropout second_meet consult_win : MatchResult

pub record Match : Type 0 where
  pub match_id : String
  pub sarang_id : String
  pub match_degree : ℕ
  pub attempt_count : ℕ
  pub matched_at : Option String
  pub match_location : Option String
  pub teacher_member_id : Option String
  pub result : Option MatchResult
  pub sub_reason : Option String
  -- STATUS is 'FINISHED'; else it is 'SCHEDULED'.
  pub finished : Bool

pub data TmResult : Type 0 where
  no_answer unfit reject invalid reserved_tm meet_fix : TmResult

pub record TmLog : Type 0 where
  pub tm_id : String
  pub sarang_id : String
  pub caller_member_id : String
  pub result : TmResult
  pub sub_reason : Option String
  pub reserved_tm_at : Option String

pub record Activity : Type 0 where
  pub activity_id : String
  pub sarang_id : String
  pub actor_member_id : String
  pub event_type : String
  pub content : Option String

pub record MemberRow : Type 0 where
  pub member_id : String
  pub name : String
  pub telegram_id : Option String
  pub deleted : Bool

-- The logs stand newest first.
pub record Store : Type 0 where
  pub sarangs : List Sarang
  pub cards : List HabJaeYang
  pub matches : List Match
  pub tm_logs : List TmLog
  pub activities : List Activity
  pub members : List MemberRow

abbrev pub sarang_key : Sarang → String
sarang_key s = s.sarang_id

abbrev pub card_key : HabJaeYang → String
card_key c = c.hab_jae_yang_id

abbrev pub match_key : Match → String
match_key m = m.match_id

-- The first row that a WHERE clause keeps
unfoldable pub first_where {ℓ} : {A : Type ℓ} → (A → Bool) → List A → Option A
first_where f [] = none
first_where f (r ∷ rs) = let rest = first_where f rs in if f r then some r else rest

-- UPDATE of the rows that a WHERE clause keeps
unfoldable pub update_where {ℓ} : {A : Type ℓ} → (A → Bool) → (A → A) → List A → List A
update_where f g [] = []
update_where f g (r ∷ rs) = let rest = update_where f g rs in if f r then g r ∷ rest else r ∷ rest

-- DELETE of the rows that a WHERE clause keeps
unfoldable pub delete_where {ℓ} : {A : Type ℓ} → (A → Bool) → List A → List A
delete_where f [] = []
delete_where f (r ∷ rs) = let rest = delete_where f rs in if f r then rest else r ∷ rest

-- `SARANG_ID = :1 AND IS_ACTIVE = 1`: at most one row (UX_SHJY_ACTIVE)
abbrev pub is_active_of : String → HabJaeYang → Bool
is_active_of k c = str_eq c.sarang_id k && c.is_active

unfoldable pub active_card : String → List HabJaeYang → Option HabJaeYang
unfolding first_where
active_card k cards = first_where (is_active_of k) cards
