-- ===== src/Engine/Captions/Export.antt =====
-- Snapshots and subtitle files of MyVote-Speaker-Update/src/myvote_engine/captions.py. `spell` gives
-- the text of an identifier.
pub mod Timing
pub mod Boundaries
pub mod Merging
pub mod Stamps
use my_vote_server.Base.{
  ℕ, zero, suc, ◌+◌, ◌-◌, ◌/◌, ◌%◌, Bool, true, false, not, ◌&&◌, ◌||◌, Option, none, some, List,
  [], ◌∷◌, ◌++◌, map, reverse, ltb, leb, ◌==◌, if◌then◌else◌, is_some, get_or_else, is_empty, any,
  filter, Text, Dict, get, values,
}
use my_vote_server.Source.Text.{Unicode}
use my_vote_server.Session.Output.{strip, snapshot}
use my_vote_server.Engine.Captions.Segments.{
  CaptionTranslation, CaptionSegment, current_translation,
}
use my_vote_server.Engine.Captions.Groups.{CaptionGroupReplacement, is_stable}
use my_vote_server.Engine.Captions.Store.{CaptionChange, CaptionStore}

abbrev pub ns_per_ms : ℕ
ns_per_ms = 1000000

pub data ExportMode : Type 0 where
  source_mode translation_mode bilingual_mode : ExportMode

pub data MissingTranslation : Type 0 where
  use_source omit raise : MissingTranslation

pub data OverlapPolicy : Type 0 where
  preserve merge : OverlapPolicy

-- `offset_ns`, which may be negative.
pub data Offset : Type 0 where
  later earlier : ℕ → Offset

pub record ExportOptions : Type 0 where
  pub mode : ExportMode
  pub missing : MissingTranslation
  pub include_provisional : Bool
  pub offset : Offset
  pub speaker_labels : Bool
  pub webvtt : Bool
  pub overlap : OverlapPolicy

-- `_segment_order`: by start, end, track and identifier.
unfoldable pub comes_first : CaptionSegment → CaptionSegment → Bool
comes_first a b =
    if not (a.start_ns == b.start_ns)
    then ltb a.start_ns b.start_ns
    else if not (a.end_ns == b.end_ns)
    then ltb a.end_ns b.end_ns
    else if not (a.track_id == b.track_id)
    then ltb a.track_id b.track_id
    else leb a.segment_id b.segment_id

unfoldable pub insert_segment : CaptionSegment → List CaptionSegment → List CaptionSegment
unfolding comes_first
insert_segment c [] = c ∷ []
insert_segment c (d ∷ ds) =
    let rest = insert_segment c ds in if comes_first c d then c ∷ d ∷ ds else d ∷ rest

unfoldable pub sort_segments : List CaptionSegment → List CaptionSegment
unfolding insert_segment
sort_segments [] = []
sort_segments (c ∷ cs) = insert_segment c (sort_segments cs)

pub record CaptionSnapshot : Type 0 where
  pub session_id : ℕ
  pub revision : ℕ
  pub provider_generation : ℕ
  pub segments : List CaptionSegment
  pub speaker_aliases : Dict Text
  pub changes : List CaptionChange
  pub held_groups : List CaptionGroupReplacement

-- `sorted` of aliases and of group names, of which none is there twice.
unfoldable pub insert_alias : ℕ × Text → Dict Text → Dict Text
insert_alias a [] = a ∷ []
insert_alias a (b ∷ bs) =
    let rest = insert_alias a bs in if leb a.0 b.0 then a ∷ b ∷ bs else b ∷ rest

unfoldable pub sort_aliases : Dict Text → Dict Text
unfolding insert_alias
sort_aliases [] = []
sort_aliases (a ∷ aliases) = insert_alias a (sort_aliases aliases)

unfoldable pub insert_name : ℕ → List ℕ → List ℕ
insert_name k [] = k ∷ []
insert_name k (j ∷ ks) = let rest = insert_name k ks in if leb k j then k ∷ j ∷ ks else j ∷ rest

unfoldable pub sort_names : List ℕ → List ℕ
unfolding insert_name
sort_names [] = []
sort_names (k ∷ ks) = insert_name k (sort_names ks)

unfoldable pub groups_named : List ℕ → Dict CaptionGroupReplacement → List CaptionGroupReplacement
unfolding get
groups_named [] groups = []
groups_named (k ∷ ks) groups =
    let rest = groups_named ks groups in elim (get k groups) [ none ↦ rest | some g ↦ g ∷ rest ]

-- `snapshot`.
unfoldable pub snapshot_of : CaptionStore → CaptionSnapshot
unfolding sort_segments values sort_aliases sort_names groups_named
snapshot_of s = record {
  session_id = s.session_id;
  revision = s.revision;
  provider_generation = s.generation;
  segments = sort_segments (values s.segments);
  speaker_aliases = sort_aliases s.aliases;
  changes = s.changes;
  held_groups = groups_named (sort_names s.held_groups) s.groups;
}

-- `value.replace("\r\n", "\n").replace("\r", "\n")`.
unfoldable pub unify_lines : Text → Text
unify_lines [] = []
unify_lines (c ∷ []) = if c == 13 then b'\n' ∷ [] else c ∷ []
unify_lines (c ∷ (d ∷ text)) =
    let rest = unify_lines (d ∷ text) in
    if c == 13 && d == b'\n' then rest else if c == 13 then b'\n' ∷ rest else c ∷ rest

unfoldable pub printable : ℕ → ℕ
printable c = if c == b'\n' || c == 9 || leb 32 c then c else 0xfffd

-- `value.split("\n")`.
unfoldable pub split_lines : Text → List Text
split_lines [] = [] ∷ []
split_lines (c ∷ text) = elim (split_lines text) [
  | [] ↦ (c ∷ []) ∷ []
  | line ∷ lines ↦ if c == b'\n' then [] ∷ line ∷ lines else (c ∷ line) ∷ lines
]

-- `html.escape(value, quote=False)`.
unfoldable pub escape : Text → Text
escape [] = []
escape (c ∷ text) =
    let rest = escape text in
    if c == b'&'
    then b'&' ∷ b'a' ∷ b'm' ∷ b'p' ∷ b';' ∷ rest
    else if c == b'<'
    then b'&' ∷ b'l' ∷ b't' ∷ b';' ∷ rest
    else if c == b'>'
    then b'&' ∷ b'g' ∷ b't' ∷ b';' ∷ rest
    else c ∷ rest

unfoldable pub join_with : ℕ → List Text → Text
join_with c [] = []
join_with c (t ∷ []) = t
join_with c (t ∷ (v ∷ texts)) = t ++ c ∷ join_with c (v ∷ texts)

unfoldable pub filled_lines : Unicode → Text → List Text
unfolding unify_lines split_lines printable strip
filled_lines u value =
    filter (λ line. not (is_empty line))
      (map (strip u) (split_lines (map printable (unify_lines value))))

-- `_subtitle_text`.
unfoldable pub subtitle_text : Unicode → Text → Text
unfolding filled_lines join_with escape
subtitle_text u value = escape (join_with b'\n' (filled_lines u value))

-- `value.split()`: the runs of characters that are no white space.
unfoldable pub words_from : Unicode → Text → Text → List Text
words_from u word [] = if is_empty word then [] else reverse word ∷ []
words_from u word (c ∷ text) = elim (u.is_space c) [
  | true ↦ let rest = words_from u [] text in if is_empty word then rest else reverse word ∷ rest
  | false ↦ words_from u (c ∷ word) text
]

-- The label of a speaker: the alias, or the identifier.
unfoldable pub label_of : Unicode → (ℕ → Text) → Dict Text → ℕ → Text
unfolding words_from join_with subtitle_text get
label_of u spell aliases k =
    subtitle_text u (join_with b' ' (words_from u [] (get_or_else (get k aliases) (spell k))))

unfoldable pub shows_source : ExportMode → Bool
shows_source source_mode = true
shows_source translation_mode = false
shows_source bilingual_mode = true

unfoldable pub shows_translation : ExportMode → Bool
shows_translation source_mode = false
shows_translation translation_mode = true
shows_translation bilingual_mode = true

unfoldable pub cue_lines :
    Unicode → ExportMode → CaptionSegment → Option CaptionTranslation → List Text
unfolding shows_source shows_translation subtitle_text
cue_lines u mode x none = subtitle_text u x.source_text ∷ []
cue_lines u mode x (some t) =
    (if shows_source mode then subtitle_text u x.source_text ∷ [] else [])
    ++ (if shows_translation mode then subtitle_text u t.text ∷ [] else [])

unfoldable pub labelled : Bool → Text → Text → Text
labelled webvtt label body =
    let line = label ++ b':' ∷ b' ' ∷ body in
    if webvtt
    then b'<' ∷ b'v' ∷ b' ' ∷ (label ++ b'>' ∷ (line ++ b'<' ∷ b'/' ∷ b'v' ∷ b'>' ∷ []))
    else line

-- The cue of a segment whose text is shown.
unfoldable pub cue_body : Unicode → (ℕ → Text) → Dict Text → ExportOptions → CaptionSegment → Text
unfolding join_with cue_lines current_translation labelled label_of
cue_body u spell aliases o x =
    let body = join_with b'\n' (cue_lines u o.mode x (current_translation x)) in
    elim x.speaker_id [
      | none ↦ body
      | some k ↦
          if o.speaker_labels then labelled o.webvtt (label_of u spell aliases k) body else body
    ]

-- `_cue_text`; none is its ValueError.
unfoldable pub cue_text :
    Unicode → (ℕ → Text) → Dict Text → ExportOptions → CaptionSegment → Option Text
unfolding current_translation shows_translation cue_body
cue_text u spell aliases o x =
    if shows_translation o.mode && not (is_some (current_translation x))
    then (elim o.missing [
      | raise ↦ none
      | omit ↦ some []
      | use_source ↦ some (cue_body u spell aliases o x)
    ])
    else some (cue_body u spell aliases o x)

pub record Cue : Type 0 where
  pub start_ms : ℕ
  pub end_ms : ℕ
  pub body : Text

-- A time with the offset; none is a time before 0.
unfoldable pub shift : Offset → ℕ → Option ℕ
shift (later n) t = some (t + n)
shift (earlier n) t = if ltb t n then none else some (t - n)

-- The cue's times: to the millisecond below, and to the millisecond above.
unfoldable pub cue_of : Offset → ℕ → ℕ → Text → Option Cue
unfolding shift
cue_of o start_ns end_ns body = elim (shift o start_ns) [
  | none ↦ none
  | some start ↦ elim (shift o end_ns) [
    | none ↦ none
    | some stop ↦
        if leb stop start
        then none
        else some (record {
          start_ms = start / ns_per_ms;
          end_ms = (stop + ns_per_ms - 1) / ns_per_ms;
          body = body;
        })
  ]
]

unfoldable pub is_hidden : ExportOptions → CaptionSegment → Bool
unfolding is_stable
is_hidden o x =
    not (is_empty x.superseded_by) || not (is_stable x.source_state) && not o.include_provisional

-- The cues in front of the choice of overlap; none is a ValueError.
unfoldable pub plain_cues :
    Unicode → (ℕ → Text) → Dict Text → ExportOptions → List CaptionSegment → Option (List Cue)
unfolding is_hidden cue_text cue_of
plain_cues u spell aliases o [] = some []
plain_cues u spell aliases o (x ∷ xs) =
    let rest = plain_cues u spell aliases o xs in
    if is_hidden o x then rest else elim (cue_text u spell aliases o x) [
      | none ↦ none
      | some body ↦
          if is_empty body then rest else elim (cue_of o.offset x.start_ns x.end_ns body) [
            | none ↦ none
            | some cue ↦ elim rest [ none ↦ none | some cues ↦ some (cue ∷ cues) ]
          ]
    ]

-- The times at which a cue starts or ends, in order, each once.
unfoldable pub insert_time : ℕ → List ℕ → List ℕ
insert_time t [] = t ∷ []
insert_time t (v ∷ vs) =
    let rest = insert_time t vs in
    if t == v then v ∷ vs else if ltb t v then t ∷ v ∷ vs else v ∷ rest

unfoldable pub boundaries : List Cue → List ℕ
unfolding insert_time
boundaries [] = []
boundaries (c ∷ cues) = insert_time c.start_ms (insert_time c.end_ms (boundaries cues))

-- The set of the active cues, by their places, once the changes at a time are made. A cue ends
-- later than it starts, so at one time it either enters or leaves.
unfoldable pub change_active : ℕ → List Cue → List Bool → List Bool
change_active t [] active = []
change_active t (c ∷ cues) [] = []
change_active t (c ∷ cues) (a ∷ active) =
    (if c.end_ms == t then false else c.start_ms == t || a) ∷ change_active t cues active

unfoldable pub active_bodies : List Cue → List Bool → List Text
active_bodies [] active = []
active_bodies (c ∷ cues) [] = []
active_bodies (c ∷ cues) (a ∷ active) =
    let rest = active_bodies cues active in if a then c.body ∷ rest else rest

-- The walk over the boundaries from one on.
unfoldable pub merge_from : List Cue → ℕ → List Bool → List ℕ → List Cue
unfolding change_active active_bodies join_with
merge_from cues previous active [] = []
merge_from cues previous active (t ∷ times) =
    let rest = merge_from cues t (change_active t cues active) times in
    if any (λ a. a) active
    then record {
      start_ms = previous;
      end_ms = t;
      body = join_with b'\n' (active_bodies cues active);
    }
      ∷ rest
    else rest

unfoldable pub merge_times : List Cue → List ℕ → List Cue
unfolding merge_from change_active
merge_times cues [] = []
merge_times cues (t ∷ times) =
    merge_from cues t (change_active t cues (map (λ c. false) cues)) times

unfoldable pub merged : List Cue → List Cue
unfolding merge_times boundaries
merged cues = merge_times cues (boundaries cues)

-- `_cues`; none is a ValueError.
unfoldable pub cues_of : Unicode → (ℕ → Text) → ExportOptions → CaptionSnapshot → Option (List Cue)
unfolding plain_cues sort_segments merged
cues_of u spell o snapshot =
    elim (plain_cues u spell snapshot.speaker_aliases o (sort_segments snapshot.segments)) [
      | none ↦ none
      | some cues ↦ some (elim o.overlap [ preserve ↦ cues | merge ↦ merged cues ])
    ]

abbrev pub digit : ℕ → ℕ
digit n = b'0' + n % 10

-- Decimal digits, at least as many as are asked for; the fuel is the number itself.
unfoldable pub digits_from : ℕ → ℕ → Text → Text
digits_from zero n text = text
digits_from (suc fuel) n text =
    let rest = digits_from fuel (n / 10) (digit n ∷ text) in if n == 0 then text else rest

unfoldable pub two_digits : ℕ → Text
unfolding digits_from
two_digits n = if ltb n 100 then digit (n / 10) ∷ digit n ∷ [] else digits_from n n []

unfoldable pub three_digits : ℕ → Text
three_digits n = digit (n / 100) ∷ digit (n / 10) ∷ digit n ∷ []

-- `_timestamp`.
unfoldable pub timestamp : ℕ → ℕ → Text
unfolding two_digits three_digits
timestamp milliseconds decimal =
    let seconds = milliseconds / 1000 in
    let minutes = seconds / 60 in
    two_digits (minutes / 60)
    ++ b':'
      ∷ (two_digits (minutes % 60)
          ++ b':' ∷ (two_digits (seconds % 60) ++ decimal ∷ three_digits (milliseconds % 1000)))

unfoldable pub number : ℕ → Text
unfolding digits_from
number n = if n == 0 then b'0' ∷ [] else digits_from n n []

abbrev arrow : Text
arrow = b' ' ∷ b'-' ∷ b'-' ∷ b'>' ∷ b' ' ∷ []

unfoldable pub print_cue : ℕ → ℕ → Cue → Text
unfolding number timestamp
print_cue decimal index c =
    number index
    ++ b'\n'
      ∷ (timestamp c.start_ms decimal
          ++ (arrow ++ (timestamp c.end_ms decimal ++ b'\n' ∷ (c.body ++ b'\n' ∷ b'\n' ∷ []))))

unfoldable pub print_cues : ℕ → ℕ → List Cue → Text
unfolding print_cue
print_cues decimal index [] = []
print_cues decimal index (c ∷ cues) =
    print_cue decimal index c ++ print_cues decimal (index + 1) cues

-- `export_srt` and `export_webvtt`.
unfoldable pub export_srt : Unicode → (ℕ → Text) → ExportOptions → CaptionSnapshot → Option Text
unfolding cues_of print_cues
export_srt u spell o snapshot = elim (cues_of u spell (record o { webvtt = false }) snapshot) [
  | none ↦ none
  | some cues ↦ some (print_cues b',' 1 cues)
]

abbrev heading : Text
heading = b'W' ∷ b'E' ∷ b'B' ∷ b'V' ∷ b'T' ∷ b'T' ∷ b'\n' ∷ b'\n' ∷ []

unfoldable pub export_webvtt : Unicode → (ℕ → Text) → ExportOptions → CaptionSnapshot → Option Text
unfolding cues_of print_cues
export_webvtt u spell o snapshot = elim (cues_of u spell (record o { webvtt = true }) snapshot) [
  | none ↦ none
  | some cues ↦ some (heading ++ print_cues b'.' 1 cues)
]
