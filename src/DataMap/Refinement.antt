-- ===== src/DataMap/Refinement.antt =====
-- DataMap as a finite map (RecursionEngine.h): the list of entries against a function from keys to
-- data, under any sequence of calls.
use mac_osx_vfs_redirector.Base.{
  ℕ, ◌≡◌, ◌≢◌, refl, ap, ◌∙◌, Bool, true, false, List, [], ◌∷◌, ◌==◌, if◌then◌else◌, All,
}
use mac_osx_vfs_redirector.DataMap.Laws.{
  IsValid, get-add, get-remove, add-IsValid, remove-IsValid, add_succeeds,
}
use mac_osx_vfs_redirector.DataMap.{null, DataMap, add_data_by_key, remove_key, get_data_by_key}

-- A call of a method; an `allocated` argument is the answer of IOMalloc.
pub data MapCall : Type 0 where
  adds : (allocated : Bool) → (key value : ℕ) → MapCall
  removes gets : (key : ℕ) → MapCall

-- `assert( data )`
abbrev pub AddsData : MapCall → Type 0
AddsData (adds a k d) = d ≢ null
AddsData (removes k) = Unit
AddsData (gets k) = Unit

-- what a call returns
pub data Answer : Type 0 where
  added : Bool → Answer
  removed : Answer
  found : ℕ → Answer

unfoldable pub answer : MapCall → DataMap → Answer × DataMap
answer (adds a k d) m = let (ok, m') = add_data_by_key a k d m in (added ok, m')
answer (removes k) m = (removed, remove_key k m)
answer (gets k) m = (found (get_data_by_key k m), m)

unfoldable pub answers : List MapCall → DataMap → List Answer
unfolding answer
answers [] m = []
answers (c ∷ cs) m = let (a, m') = answer c m in a ∷ answers cs m'

-- The specification: NULL is no data, and a call without memory fails and changes nothing.
abbrev pub FiniteMap : Type 0
FiniteMap = ℕ → ℕ

abbrev pub empty_map : FiniteMap
empty_map j = null

unfoldable pub specified_answer : MapCall → FiniteMap → Answer × FiniteMap
specified_answer (adds false k d) f = (added false, f)
specified_answer (adds true k d) f = (added true, λ j. if k == j then d else f j)
specified_answer (removes k) f = (removed, λ j. if k == j then null else f j)
specified_answer (gets k) f = (found (f k), f)

unfoldable pub specified_answers : List MapCall → FiniteMap → List Answer
unfolding specified_answer
specified_answers [] f = []
specified_answers (c ∷ cs) f = let (a, f') = specified_answer c f in a ∷ specified_answers cs f'

-- The abstraction: a valid list stands for the function that its look-ups compute.
record Represents (m : DataMap) (f : FiniteMap) : Type 0 where
  valid : IsValid m
  agrees : (j : ℕ) → get_data_by_key j m ≡ f j

call-Represents :
    (c : MapCall) (m : DataMap) (f : FiniteMap)
    → AddsData c
    → Represents m f
    → ((answer c m).0 ≡ (specified_answer c f).0)
      × Represents (answer c m).1 (specified_answer c f).1
unfolding answer specified_answer add_data_by_key
call-Represents (adds false k d) m f h r = (refl, r)
call-Represents (adds true k d) m f h r = (
  ap added (add_succeeds k d m),
  record {
    valid = add-IsValid true k d m h r.valid;
    agrees = λ j. get-add j k d m ∙ ap (λ x. if k == j then d else x) (r.agrees j);
  },
)
call-Represents (removes k) m f h r = (
  refl,
  record {
    valid = remove-IsValid k m r.valid;
    agrees = λ j. get-remove j k m r.valid ∙ ap (λ x. if k == j then null else x) (r.agrees j);
  },
)
call-Represents (gets k) m f h r = (ap found (r.agrees k), r)

answers-Represents :
    (cs : List MapCall) (m : DataMap) (f : FiniteMap)
    → All AddsData cs
    → Represents m f
    → answers cs m ≡ specified_answers cs f
unfolding answers specified_answers
answers-Represents [] m f h r = refl
answers-Represents (c ∷ cs) m f h r =
    let step = call-Represents c m f h.0 r in
    ap (λ a. a ∷ answers cs (answer c m).1) step.0
    ∙ ap (λ l. (specified_answer c f).0 ∷ l) (answers-Represents cs _ _ h.1 step.1)

-- DataMap refines a finite map: from the empty list, any sequence of the calls addDataByKey, removeKey
-- and getDataByKey returns what the same calls return on a function from keys to data, also where
-- IOMalloc fails. This is for callers that add no NULL.
pub answers-specified_answers :
    (cs : List MapCall) → All AddsData cs → answers cs [] ≡ specified_answers cs empty_map
unfolding get_data_by_key
answers-specified_answers cs h =
    answers-Represents cs [] empty_map h (record { valid = tt; agrees = λ j. refl })
