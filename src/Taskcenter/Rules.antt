-- ===== src/Taskcenter/Rules.antt =====
-- internal/taskcenter/taskcenter.go: who may submit, which tasks exclude each other, and `Submit`.
use rocksys.Base.{
  suc, ℤ, pos, bytes_eq, Bool, true, false, ◌&&◌, ◌||◌, is_nil, List, [], ◌∷◌, ◌++◌, Bytes, codes,
  eqb_bytes, trim, is_space, Option, none, some, if◌then◌else◌,
}
use rocksys.Base.Dict.{Dict, get, put}
use rocksys.Base.Decimal.{format_int}
use rocksys.Taskcenter.{status_running, Entry, Center, Spec}

unfoldable pub contains_eq : List Bytes → Bytes → Bool
unfolding eqb_bytes
contains_eq [] v = false
contains_eq (s ∷ list) v = eqb_bytes s v || contains_eq list v

-- An empty text is in no list.
unfoldable pub contains_str : List Bytes → Bytes → Bool
unfolding contains_eq
contains_str list v = if is_nil v then false else contains_eq list v

abbrev pub listed : Option (List Bytes) → List Bytes
listed none = []
listed (some l) = l

unfoldable pub flag : Option Bool → Bool
flag none = false
flag (some b) = b

-- Two labels exclude each other, by the two rules: a list of which one task may run, and for a label
-- those that it keeps out and that keep it out.
unfoldable pub excludes : List Bytes → Dict Bytes (List Bytes) → Bytes → Bytes → Bool
unfolding contains_str get eqb_bytes
excludes mutex_list mutex_map rl label =
    eqb_bytes rl label
    || (contains_str mutex_list rl && contains_str mutex_list label)
    || (contains_str (listed (get mutex_map label)) rl
        || contains_str (listed (get mutex_map rl)) label)

module _ {D : Type 0} where
  unfoldable pub register_creators : Center D → List Bytes → Center D
  unfolding trim put
  register_creators c [] = c
  register_creators c (n ∷ names) =
      register_creators
        (if is_nil (trim is_space n)
          then c
          else record c { allow_creators = put c.allow_creators (trim is_space n) true })
        names

  unfoldable pub new : ℤ → List Bytes → Center D
  unfolding register_creators
  new epoch allow_creators =
      register_creators
        (record {
          epoch = epoch;
          seq = 0;
          running = [];
          finished = [];
          allow_creators = [];
          mutex_task_field = codes "CreatedBy";
          mutex_list = [];
          mutex_map = [];
        })
        allow_creators

  -- `false` is the error.
  unfoldable pub register_mutex_rules :
      Center D → Bytes → List Bytes → Dict Bytes (List Bytes) → Center D × Bool
  unfolding eqb_bytes
  register_mutex_rules c field list map =
      if eqb_bytes field (codes "CreatedBy")
      then (record c { mutex_task_field = field; mutex_list = list; mutex_map = map }, true)
      else (c, false)

  unfoldable pub conflict_in :
      List Bytes → Dict Bytes (List Bytes) → List (Entry D) → Bytes → Option (Entry D)
  unfolding excludes
  conflict_in mutex_list mutex_map [] label = none
  conflict_in mutex_list mutex_map (e ∷ es) label =
      let rest = conflict_in mutex_list mutex_map es label in
      if excludes mutex_list mutex_map e.task.created_by label then some e else rest

  unfoldable pub conflict_with : Center D → Bytes → Option (Entry D)
  unfolding conflict_in
  conflict_with c label = conflict_in c.mutex_list c.mutex_map c.running label

-- The outcome of `Submit`.
pub data Submitted : Type 0 where
  err_unknown_creator : (created_by : Bytes) → Submitted
  err_busy : (spec_title label id title : Bytes) → Submitted
  submitted : (id : Bytes) → Submitted

module _ {D : Type 0} where
  -- "%d-%d"
  unfoldable pub id_of : Center D → Bytes
  unfolding format_int
  id_of c = format_int c.epoch ++ b'-' ∷ format_int (pos c.seq)

  unfoldable pub new_entry : Center D → Spec → ℤ → Entry D
  unfolding id_of
  new_entry c spec now = record {
    ref = c.seq;
    task = record {
      id = id_of c;
      created_by = spec.created_by;
      title = spec.title;
      status = status_running;
      progress = none;
      result = [];
      created_at = now;
      finished_at = none;
    };
    cancel = true;
    is_cancelled = false;
    cancel_req_at = none;
    finish_at = none;
    progress = none;
  }

  unfoldable pub admit : Center D → Spec → ℤ → Option (Entry D) → Center D × Submitted
  unfolding new_entry id_of
  admit c spec now (some cur) = (c, err_busy spec.title spec.created_by cur.task.id cur.task.title)
  admit c spec now none =
      let c' = record c { seq = suc c.seq } in
      (record c' { running = c.running ++ new_entry c' spec now ∷ [] }, submitted (id_of c'))

  unfoldable pub submit : Center D → Spec → ℤ → Center D × Submitted
  unfolding admit conflict_with get flag
  submit c spec now =
      if flag (get c.allow_creators spec.created_by)
      then admit c spec now (conflict_with c spec.created_by)
      else (c, err_unknown_creator spec.created_by)
