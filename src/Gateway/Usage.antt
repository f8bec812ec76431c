-- ===== src/Gateway/Usage.antt =====
-- internal/gateway/gateway.go: the tokens that an upstream reports, and the keys that an endpoint may use.
use mathlib.Core.List.{Mem}
use text.Mathlib.Text.{◌==◌ as str_eq}
use api_gateway.Prelude.{
  ◌≡◌, ◌⊎◌, Bool, true, false, not, ◌||◌, Option, none, some, List, [], ◌∷◌, String, if◌then◌else◌,
  ℤ, pos, eq_ℤ, is_positive, keep_if, Bool-cases, inl, inr,
}
use api_gateway.Host.{Library, Header}
use api_gateway.Entity.{PlatformKey}
use api_gateway.Gateway.Rounds.{keep_if-subset, List-cases, mem-keep_if}

-- What the code takes from packages json and strings, over the type of a json.RawMessage: a field of an
-- object, which `json.Unmarshal` reads from a text or from a field; the number of a field, by
-- `json.Unmarshal` and `int`; `strings.Split(s, "\n")`, and the rest after "data:".
pub record Json (Raw : Type 0) : Type 0 where
  pub parse : String → Option (String → Option Raw)
  pub object : Raw → Option (String → Option Raw)
  pub number : Raw → Option ℤ
  pub lines : String → List String
  pub after_data : String → Option String

-- Input, output and cached tokens.
abbrev pub Usage : Type 0
Usage = ℤ × ℤ × ℤ

unfoldable pub extract_token_usage : Library → Header → ℤ
extract_token_usage lib header =
    let from_total =
      if not (str_eq (header "X-Token-Usage") "")
      then elim (lib.atoi (header "X-Token-Usage")) [ some n ↦ n | none ↦ pos 0 ]
      else pos 0 in
    if not (str_eq (header "Openai-Usage") "")
    then elim (lib.atoi (header "Openai-Usage")) [ some n ↦ n | none ↦ from_total ]
    else from_total

-- `plus` is the sum of two ints.
module _ {Raw : Type 0} (json : Json Raw) (plus : ℤ → ℤ → ℤ) where
  -- A missing field is an empty message.
  unfoldable pub raw_int : Option Raw → ℤ
  raw_int none = pos 0
  raw_int (some r) = elim (json.number r) [ some n ↦ n | none ↦ pos 0 ]

  abbrev pub fill : ℤ → ℤ → ℤ
  fill n other = if eq_ℤ n (pos 0) then other else n

  -- The object under "usage", of OpenAI or Anthropic.
  unfoldable pub shared_usage : (String → Option Raw) → Usage
  unfolding raw_int
  shared_usage um =
      let details : ℤ = elim (um "prompt_tokens_details") [
        | none ↦ pos 0
        | some d ↦ elim (json.object d) [ none ↦ pos 0 | some dm ↦ raw_int (dm "cached_tokens") ]
      ] in
      (
        fill (raw_int (um "prompt_tokens")) (raw_int (um "input_tokens")),
        fill (raw_int (um "completion_tokens")) (raw_int (um "output_tokens")),
        fill details (
            plus (raw_int (um "cache_read_input_tokens"))
              (raw_int (um "cache_creation_input_tokens"))),
      )

  -- The object under "usageMetadata", of Gemini, fills what is still zero.
  unfoldable pub gemini_usage : (String → Option Raw) → Usage → Usage
  unfolding raw_int
  gemini_usage gm (in_, out, cached) = (
    fill in_ (raw_int (gm "promptTokenCount")),
    fill out (raw_int (gm "candidatesTokenCount")),
    fill cached (raw_int (gm "cachedContentTokenCount")),
  )

  abbrev pub field : Option Raw → Option (String → Option Raw)
  field none = none
  field (some r) = json.object r

  unfoldable pub usage_from_object : (String → Option Raw) → Usage
  unfolding shared_usage gemini_usage
  usage_from_object obj =
      let shared : Usage = elim (field (obj "usage")) [
        | none ↦ (pos 0, pos 0, pos 0)
        | some um ↦ shared_usage um
      ] in
      elim (field (obj "usageMetadata")) [ none ↦ shared | some gm ↦ gemini_usage gm shared ]

  abbrev pub reports : Usage → Bool
  reports (in_, out, cached) = is_positive in_ || is_positive out || is_positive cached

  -- The last frame of a stream that reports something.
  unfoldable pub scan_lines : Library → List String → Usage → Usage
  unfolding usage_from_object
  scan_lines lib [] found = found
  scan_lines lib (line ∷ rest) found =
      let payload : String = elim (json.after_data (lib.trim_space line)) [
        | none ↦ ""
        | some p ↦ lib.trim_space p
      ] in
      let skipped = scan_lines lib rest found in
      if str_eq payload "" || str_eq payload "[DONE]" then skipped else elim (json.parse payload) [
        | none ↦ skipped
        | some probe ↦
            let u = usage_from_object probe in scan_lines lib rest (if reports u then u else found)
      ]

  unfoldable pub extract_usage_detail : Library → String → Usage
  unfolding scan_lines usage_from_object
  extract_usage_detail lib text =
      let whole : Usage = elim (json.parse text) [
        | none ↦ (pos 0, pos 0, pos 0)
        | some probe ↦ usage_from_object probe
      ] in
      let streamed = scan_lines lib (json.lines text) (pos 0, pos 0, pos 0) in
      if str_eq text ""
      then (pos 0, pos 0, pos 0)
      else if lib.contains text "data:"
      then if reports streamed then streamed else whole
      else whole

-- The ids that a list of ids in a text allows.
unfoldable pub allowed_ids : Library → List String → List ℤ
allowed_ids lib [] = []
allowed_ids lib (part ∷ parts) =
    let rest = allowed_ids lib parts in
    let p = lib.trim_space part in
    if str_eq p "" then rest else elim (lib.atoi p) [ some id ↦ id ∷ rest | none ↦ rest ]

unfoldable pub has_id : ℤ → List ℤ → Bool
has_id id [] = false
has_id id (i ∷ ids) = eq_ℤ i id || has_id id ids

unfoldable pub filter_keys_by_key_ids : Library → List PlatformKey → String → List PlatformKey
unfolding allowed_ids has_id
filter_keys_by_key_ids lib keys key_ids =
    let csv = lib.trim_space key_ids in
    if str_eq csv "" then keys else elim (allowed_ids lib (lib.split_commas csv)) [
      | [] ↦ keys
      | id ∷ ids ↦ keep_if (λ k. has_id k.id (id ∷ ids)) keys
    ]

-- Every key that is left was given, and its id is in the list, unless the list is blank or names no id.
filter_keys_by_key_ids-Mem :
    (lib : Library) (keys : List PlatformKey) (key_ids : String) (k : PlatformKey)
    → Mem k (filter_keys_by_key_ids lib keys key_ids)
    → Mem k keys
      × ((allowed_ids lib (lib.split_commas (lib.trim_space key_ids)) ≡ [])
          ⊎ (str_eq (lib.trim_space key_ids) "" ≡ true)
          ⊎ (has_id k.id (allowed_ids lib (lib.split_commas (lib.trim_space key_ids))) ≡ true))
unfolding filter_keys_by_key_ids
filter_keys_by_key_ids-Mem lib keys key_ids k m =
    let csv = lib.trim_space key_ids in
    elim (Bool-cases (str_eq csv "")) [
      | inl e ↦ (rw (e, filter_keys_by_key_ids) at m, inr (inl e))
      | inr e ↦ elim (List-cases (allowed_ids lib (lib.split_commas csv))) [
        | inl a ↦ (rw (e, a, filter_keys_by_key_ids) at m, inl a)
        | inr (id, ids, a) ↦
            let i = rw (e, a, filter_keys_by_key_ids) at m in
            (
              keep_if-subset (λ j. has_id j.id (id ∷ ids)) keys k i,
              inr (inr (rw a (mem-keep_if (λ j. has_id j.id (id ∷ ids)) keys k i))),
            )
      ]
    ]
