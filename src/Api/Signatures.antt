-- ===== src/Api/Signatures.antt =====
-- The thought signatures of tool calls: internal/api/thoughtsig.go. The canonical form of arguments is
-- encoding/json's, an argument here; a nil pointer to a call is `none`.
pub mod Fifo
use aistudio2api.Prelude.{
  ℕ, Bool, true, false, not, ◌||◌, if◌then◌else◌, leb, Option, none, some, List, ◌∷◌, [], ◌++◌, map,
  length, Text, is_empty, Assoc, lookup, lookup_or, insert, erase,
}

pub record FunctionCall : Type 0 where
  pub id : Text
  pub name : Text
  pub arguments : Text
  pub thought_signature : Text

pub record Part : Type 0 where
  pub function_call : Option FunctionCall
  pub thought_signature : Text

pub record ThoughtSignatureStore : Type 0 where
  pub signatures : Assoc Text
  pub order : List Text

abbrev pub thought_signature_capacity : ℕ
thought_signature_capacity = 4096

unfoldable pub new_thought_signature_store : ThoughtSignatureStore
new_thought_signature_store = record { signatures = []; order = [] }

-- The parts of the key are joined by the character 0.
unfoldable pub thought_signature_key : (Text → Text) → FunctionCall → Text
thought_signature_key canonical call =
    call.id ++ (0 ∷ (call.name ++ (0 ∷ canonical call.arguments)))

abbrev pub is_key_of : ThoughtSignatureStore → Text → Bool
is_key_of store key = elim (lookup key store.signatures) [ none ↦ false | some s ↦ true ]

-- store.signatures[key] = signature, with the key in the order if it is new.
unfoldable pub put : ThoughtSignatureStore → Text → Text → ThoughtSignatureStore
put store key signature = record {
  signatures = insert key signature store.signatures;
  order = if is_key_of store key then store.order else store.order ++ key ∷ [];
}

unfoldable pub remember_calls :
    (Text → Text) → ThoughtSignatureStore → List FunctionCall → ThoughtSignatureStore
unfolding put thought_signature_key
remember_calls canonical store [] = store
remember_calls canonical store (call ∷ calls) =
    remember_calls canonical
      (if is_empty call.id || is_empty call.thought_signature
        then store
        else put store (thought_signature_key canonical call) call.thought_signature)
      calls

-- The second loop: the oldest keys go until `capacity` are left.
unfoldable pub evict : ℕ → Assoc Text → List Text → ThoughtSignatureStore
evict capacity signatures [] = record { signatures = signatures; order = [] }
evict capacity signatures (key ∷ keys) =
    let later = evict capacity (erase key signatures) keys in
    if leb (length (key ∷ keys)) capacity
    then record { signatures = signatures; order = key ∷ keys }
    else later

unfoldable pub remember :
    (Text → Text) → ThoughtSignatureStore → List FunctionCall → ThoughtSignatureStore
unfolding remember_calls evict
remember canonical store calls =
    let s = remember_calls canonical store calls in
    evict thought_signature_capacity s.signatures s.order

-- The call of a part, filled in where it has no signature.
unfoldable pub restore_part : (Text → Text) → ThoughtSignatureStore → Part → Part
unfolding thought_signature_key
restore_part canonical store part = elim part.function_call [
  | none ↦ part
  | some call ↦
      if is_empty call.id
        || (not (is_empty call.thought_signature) || not (is_empty part.thought_signature))
      then part
      else record part {
        function_call = some (record call {
          thought_signature = lookup_or [] (thought_signature_key canonical call) store.signatures;
        });
      }
]

unfoldable pub restore : (Text → Text) → ThoughtSignatureStore → List (List Part) → List (List Part)
unfolding restore_part
restore canonical store contents = map (map (restore_part canonical store)) contents
