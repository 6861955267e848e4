-- ===== src/Features/Sequences.antt =====
-- ai/features/sequences.py: the windows before a window, and the rows of a sequence model.
use enterprise_netsec_iac.Common.{
  ℕ, ◌≡◌, ◌+◌, ◌-◌, ◌*◌, String, List, [], ◌∷◌, ◌++◌, map, length, Option, none, some, Result, ok,
  error, value_error, zero, suc, arith, All, refl, if◌then◌else◌, leb, ap, ltb, ◌∙◌, sym,
  overflow_error, length-append, All-append_one, last?, last?-append_one,
}
use enterprise_netsec_iac.Common.Pure.{◌>>=◌, ◌>>◌, require, >>=-eq-ok, ok-eq-ok}
use enterprise_netsec_iac.Value.{Value, get, or_raise, as_dict, Fields}
use enterprise_netsec_iac.Platform.{Platform, second}
use enterprise_netsec_iac.Features.Contract.{
  expected_feature_names, ordered_feature_row, require_exact_features,
}

-- `WINDOW`
abbrev pub window : ℕ
window = 300 * second

-- `_parse`
unfoldable pub parse_end : Platform → String → Result ℕ
parse_end lib s = do
  stamp ← or_raise (lib.fromisoformat s) value_error "Invalid isoformat string"
  require stamp.aware value_error "timestamp must include a UTC offset"
  ok stamp.micros

-- `range(n, 0, -1)`
abbrev pub countdown : ℕ → List ℕ
countdown zero = []
countdown (suc n) = suc n ∷ countdown n

-- `history_window_ends`, as instants; an instant before the year 1 overflows.
unfoldable pub history_ends : ℕ → ℕ → Result (List ℕ)
history_ends end n =
    if ltb end (window * (n - 1))
    then error overflow_error "date value out of range"
    else ok (map (λ offset. end - window * offset) (countdown (n - 1)))

unfoldable pub history_window_ends : Platform → String → ℕ → Result (List ℕ)
unfolding history_ends parse_end
history_window_ends lib window_end n = do
  require (leb 2 n) value_error "sequence length must be at least 2"
  end ← parse_end lib window_end
  history_ends end n

length-countdown : (n : ℕ) → length (countdown n) ≡ n
length-countdown zero = refl
length-countdown (suc n) = omega (arith, length-countdown n)

pub length-map {ℓ κ} :
    {A : Type ℓ} {B : Type κ} (f : A → B) (xs : List A) → length (map f xs) ≡ length xs
length-map f [] = refl
length-map f (x ∷ xs) = ap suc (length-map f xs)

module _ {X : Type 0} (float_of : Value → X) (zero_x : X) where
  abbrev pub zeros : ℕ → List X
  zeros zero = []
  zeros (suc n) = zero_x ∷ zeros n

  -- The row of one window, or of one without events.
  unfoldable pub row_of : String → ℕ → Option Value → Result (List X)
  unfolding ordered_feature_row
  row_of schema width none = ok (zeros width)
  row_of schema width (some item) = ordered_feature_row float_of schema item

  unfoldable pub rows_of : String → ℕ → List (Option Value) → Result (List (List X))
  unfolding row_of
  rows_of schema width [] = ok []
  rows_of schema width (item ∷ items) = do
    row ← row_of schema width item
    rows ← rows_of schema width items
    ok (row ∷ rows)

  unfoldable pub sequence_matrix : String → List (Option Value) → Value → Result (List (List X))
  unfolding rows_of expected_feature_names ordered_feature_row
  sequence_matrix schema history features = do
    names ← expected_feature_names schema
    rows ← rows_of schema (length names) history
    row ← ordered_feature_row float_of schema features
    ok (rows ++ row ∷ [])

  length-zeros : (n : ℕ) → length (zeros n) ≡ n
  length-zeros zero = refl
  length-zeros (suc n) = omega (arith, length-zeros n)

  length-row :
      (schema : String) (value : Value) {names : List String} {row : List X}
      → expected_feature_names schema ≡ ok names
      → ordered_feature_row float_of schema value ≡ ok row
      → length row ≡ length names
  unfolding ordered_feature_row
  length-row schema value {names} {row} known h =
      let (_, checked, h1) = >>=-eq-ok (require_exact_features schema value) _ h in
      let (features, is_dict, h2) =
        >>=-eq-ok (or_raise (as_dict value) value_error "features must be an object") _ h1 in
      let (names', named, h3) = >>=-eq-ok (expected_feature_names schema) _ h2 in
      let built : map (λ n. float_of (get n features)) names' ≡ row = ok-eq-ok h3 in
      rw (← built) (length-map _ names' ∙ ap length (ok-eq-ok (sym named ∙ known)))

  length-row_of :
      (schema : String) (width : ℕ) (item : Option Value) {names : List String} {row : List X}
      → expected_feature_names schema ≡ ok names
      → width ≡ length names
      → row_of schema width item ≡ ok row
      → length row ≡ length names
  unfolding row_of
  length-row_of schema width none known w h = rw (← ok-eq-ok h) (length-zeros width ∙ w)
  length-row_of schema width (some item) known w h = length-row schema item known h

  rows_of-wide :
      (schema : String) (width : ℕ) (items : List (Option Value)) {names : List String}
      {rows : List (List X)}
      → expected_feature_names schema ≡ ok names
      → width ≡ length names
      → rows_of schema width items ≡ ok rows
      → (length rows ≡ length items) × All (λ row. length row ≡ length names) rows
  unfolding rows_of
  rows_of-wide schema width [] {rows = out} known w h =
      let built : [] ≡ out = ok-eq-ok h in rw (← built) (refl, tt)
  rows_of-wide schema width (item ∷ items) {rows = out} known w h =
      let (row, first, h1) = >>=-eq-ok (row_of schema width item) _ h in
      let (rows, rest, h2) = >>=-eq-ok (rows_of schema width items) _ h1 in
      let built : (row ∷ rows) ≡ out = ok-eq-ok h2 in
      let (count, wide) = rows_of-wide schema width items known w rest in
      rw (← built) (omega (arith, count), (length-row_of schema width item known w first, wide))

  -- The numbers of a dictionary in the order of the names.
  abbrev pub numbers : List String → Fields → List X
  numbers names fs = map (λ name. float_of (get name fs)) names

  row-numbers :
      (schema : String) (value : Value) {names : List String} {row : List X}
      → expected_feature_names schema ≡ ok names
      → ordered_feature_row float_of schema value ≡ ok row
      → (fs : Fields) × (as_dict value ≡ some fs) × (row ≡ numbers names fs)
  unfolding ordered_feature_row
  row-numbers schema value {names} {row} known h =
      let (_, checked, h1) = >>=-eq-ok (require_exact_features schema value) _ h in
      let (features, is_dict, h2) =
        >>=-eq-ok (or_raise (as_dict value) value_error "features must be an object") _ h1 in
      let (names', named, h3) = >>=-eq-ok (expected_feature_names schema) _ h2 in
      let same : names' ≡ names = ok-eq-ok (sym named ∙ known) in
      (
        features,
        given (as_dict value) is_dict,
        sym (ok-eq-ok h3) ∙ ap (λ ns. numbers ns features) same,
      )
    where
      given :
          (o : Option Fields) {fs : Fields}
          → or_raise o value_error "features must be an object" ≡ ok fs
          → o ≡ some fs
      given none e = cc
      given (some fs) e = ground arith

  -- If the matrix of a sequence is built, then it has one row for each window before the current one and a
  -- last one for the current window, each row has one number for each feature of the schema, and the last
  -- one has the numbers of the current features in the schema's order.
  pub sequence_matrix-rectangular :
      (schema : String) (history : List (Option Value)) (features : Value) {names : List String}
      {rows : List (List X)}
      → expected_feature_names schema ≡ ok names
      → sequence_matrix schema history features ≡ ok rows
      → (length rows ≡ length history + 1)
        × All (λ row. length row ≡ length names) rows
        × (fs : Fields) × (as_dict features ≡ some fs)
        × (last? rows ≡ some (numbers names fs))
  unfolding sequence_matrix
  sequence_matrix-rectangular schema history features {names} {rows = out} known h =
      let (names', named, h1) = >>=-eq-ok (expected_feature_names schema) _ h in
      let (rows', built, h2) = >>=-eq-ok (rows_of schema (length names') history) _ h1 in
      let (row, last, h3) = >>=-eq-ok (ordered_feature_row float_of schema features) _ h2 in
      let whole : (rows' ++ row ∷ []) ≡ out = ok-eq-ok h3 in
      let same : names' ≡ names = ok-eq-ok (sym named ∙ known) in
      let (count, wide) =
        rows_of-wide schema (length names') history known (ap length same) built in
      let (fs, is_dict, counted) = row-numbers schema features known last in
      rw (← whole) (
        omega (arith, count, length-append rows' (row ∷ [])),
        All-append_one _ rows' row wide (length-row schema features known last),
        fs,
        is_dict,
        last?-append_one rows' row ∙ ap some counted,
      )
