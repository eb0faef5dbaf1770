-- ===== src/Pool/Resources/Bindings.antt =====
-- The updates that bind a resource to an account, replace it or give it up: `BindResourceKind`,
-- `bindVideoOperation`, `replaceResource` and `UnbindResource` of accounts.go.
use aistudio2api.Prelude.{
  ℕ, Bool, true, false, not, ◌&&◌, ◌||◌, if◌then◌else◌, Option, none, some, Text, codes, str_eq,
  is_empty, trim_space, lookup, insert, erase,
}
use aistudio2api.Pool.Types.{
  VideoResourceMetadata, RuntimeState, Pool, resource_not_found, resource_bound, invalid_argument,
  Result, err,
}
use aistudio2api.Pool.Runtime.{unchanged, rewritten}
use aistudio2api.Pool.Resources.{Outside, Mutation, update_runtime}

abbrev foreign : Pool → Text → Text → Option Text
foreign p account_id k = elim (lookup k p.resources) [
  | none ↦ none
  | some owner ↦ if str_eq owner account_id then none else some owner
]

pub bind_mutation : Text → Text → Text → ℕ → Mutation
bind_mutation k account_id kind now p a r = elim (foreign p account_id k) [
  | some owner ↦ err (resource_bound owner)
  | none ↦ elim (lookup k r.resources) [
    | some b ↦ unchanged r
    | none ↦ rewritten (record r {
      resources =
          insert k (record { kind = trim_space kind; created_at = now; video = none }) r.resources;
    })
  ]
]

unfoldable pub bind_resource_kind : Pool → Text → Text → Text → ℕ → Outside → Pool × Result Bool
unfolding bind_mutation
bind_resource_kind p resource_id account_id kind now outside =
    let k = trim_space resource_id in
    if is_empty k
    then (p, err invalid_argument)
    else update_runtime p account_id outside (bind_mutation k account_id kind now)

abbrev video_operation : Text
video_operation = codes "video-operation"

video_mutation : Text → Text → VideoResourceMetadata → ℕ → Mutation
video_mutation k account_id metadata now p a r = elim (foreign p account_id k) [
  | some owner ↦ err (resource_bound owner)
  | none ↦ elim (lookup k r.resources) [
    | some b ↦
        if not (str_eq b.kind video_operation) || (elim b.video [ none ↦ true | some v ↦ false ])
        then err invalid_argument
        else unchanged r
    | none ↦ rewritten (record r {
      resources =
          insert k (record { kind = video_operation; created_at = now; video = some metadata })
            r.resources;
    })
  ]
]

abbrev trimmed_metadata : VideoResourceMetadata → VideoResourceMetadata
trimmed_metadata m = record {
  model = trim_space m.model;
  seconds = trim_space m.seconds;
  size = trim_space m.size;
}

unfoldable pub bind_video_operation :
    Pool → Text → Text → VideoResourceMetadata → ℕ → Outside → Pool × Result Bool
unfolding video_mutation
bind_video_operation p resource_id account_id metadata now outside =
    let k = trim_space resource_id in
    let m = trimmed_metadata metadata in
    if is_empty k || is_empty m.model || is_empty m.seconds || is_empty m.size
    then (p, err invalid_argument)
    else update_runtime p account_id outside (video_mutation k account_id m now)

-- The previous binding goes, unless it is the new one.
without_previous : Text → Text → RuntimeState → RuntimeState × Bool
without_previous previous k r =
    if not (is_empty previous) && not (str_eq previous k)
    then (elim (lookup previous r.resources) [
      | none ↦ (r, false)
      | some b ↦ (record r { resources = erase previous r.resources }, true)
    ])
    else (r, false)

abbrev first_foreign : Pool → Text → Text → Text → Option Text
first_foreign p account_id previous k =
    elim (if is_empty previous then none else foreign p account_id previous) [
      | some owner ↦ some owner
      | none ↦ if is_empty k then none else foreign p account_id k
    ]

replace_mutation : Text → Text → Text → Text → ℕ → Mutation
unfolding without_previous
replace_mutation previous k account_id kind now p a r =
    elim (first_foreign p account_id previous k) [
      | some owner ↦ err (resource_bound owner)
      | none ↦
          let (s, changed) = without_previous previous k r in
          elim (lookup k s.resources) [
            | none ↦ rewritten (record s {
              resources =
                  insert k (record { kind = kind; created_at = now; video = none }) s.resources;
            })
            | some b ↦
                if is_empty b.kind && not (is_empty kind)
                then rewritten
                    (record s { resources = insert k (record b { kind = kind }) s.resources })
                else if changed
                then rewritten s
                else unchanged s
          ]
    ]

unfoldable pub replace_resource :
    Pool → Text → Text → Text → Text → ℕ → Outside → Pool × Result Bool
unfolding replace_mutation
replace_resource p previous_id resource_id account_id kind now outside =
    let k = trim_space resource_id in
    if is_empty k
    then (p, err invalid_argument)
    else update_runtime p account_id outside
        (replace_mutation (trim_space previous_id) k account_id (trim_space kind) now)

unbind_mutation : Text → Mutation
unbind_mutation k p a r = elim (lookup k r.resources) [
  | none ↦ err resource_not_found
  | some b ↦ rewritten (record r { resources = erase k r.resources })
]

-- For an owner that the index knows without reading the files again.
unfoldable pub unbind_resource : Pool → Text → Outside → Pool × Result Bool
unfolding unbind_mutation
unbind_resource p resource_id outside = elim (lookup resource_id p.resources) [
  | none ↦ (p, err resource_not_found)
  | some account_id ↦ update_runtime p account_id outside (unbind_mutation resource_id)
]
