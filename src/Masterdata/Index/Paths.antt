-- ===== src/Masterdata/Index/Paths.antt =====
-- `objectsOf`, `valuesAtPath` and `pathValues` of index.go: the values that a path reaches.
use sekai_master_api.Prelude.{Option, none, some, List, [], ◌∷◌, ◌++◌}
use sekai_master_api.Prelude.Text.{Bytes}
use sekai_master_api.Masterdata.Json.{Value, Items, nil, cons, Fields, get}

module _ {F : Type 0} where
  objects_in : Items F → List (Fields F)
  objects_in nil = []
  objects_in (cons (Value.object fields) items) = fields ∷ objects_in items
  objects_in (cons v items) = objects_in items

  unfoldable pub objects_of : Value F → List (Fields F)
  unfolding objects_in
  objects_of (Value.object fields) = fields ∷ []
  objects_of (Value.array items) = objects_in items
  objects_of v = []

  keep_child : Option (Value F) → List (Value F) → List (Value F)
  keep_child none rest = rest
  keep_child (some Value.null) rest = rest
  keep_child (some v) rest = v ∷ rest

  children : Bytes → List (Fields F) → List (Value F)
  unfolding keep_child
  children segment [] = []
  children segment (fields ∷ rest) = keep_child (get segment fields) (children segment rest)

  step_into : Bytes → List (Value F) → List (Value F)
  unfolding children objects_of
  step_into segment [] = []
  step_into segment (v ∷ vs) = children segment (objects_of v) ++ step_into segment vs

  follow : List Bytes → List (Value F) → List (Value F)
  unfolding step_into
  follow [] values = values
  follow (segment ∷ path) values = follow path (step_into segment values)

  unfoldable pub values_at_path : Fields F → List Bytes → List (Value F)
  unfolding follow
  values_at_path record_ path = follow path (Value.object record_ ∷ [])

  items_of : Items F → List (Value F)
  items_of nil = []
  items_of (cons v items) = v ∷ items_of items

  spread : List (Value F) → List (Value F)
  unfolding items_of
  spread [] = []
  spread (Value.array items ∷ vs) = items_of items ++ spread vs
  spread (v ∷ vs) = v ∷ spread vs

  unfoldable pub path_values : Fields F → List Bytes → List (Value F)
  unfolding follow spread
  path_values record_ path = spread (follow path (Value.object record_ ∷ []))
