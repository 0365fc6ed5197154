-- ===== src/Ingestion/Hls/Playlist.antt =====
-- The playlists of packages/go/backend/ingestion/hls.go.
use streamlation.Prelude.{
  ℕ, ◌*◌, Option, none, some, List, [], ◌∷◌, leb, ◌==◌, if◌then◌else◌, length,
}
use streamlation.Prelude.Int.{ℤ, pos}
use streamlation.Prelude.Text.{Bytes, text, has_prefix, strip_prefix, trim_space}
use streamlation.Prelude.Result.{Result, ok, err}

-- The errors of the source, with the text of the error that they wrap.
pub data HlsError : Type 0 where
  playlist_url_required missing_duration line_too_long : HlsError
  invalid_playlist_url build_playlist_request fetch_playlist playlist_returned read_playlist :
      Bytes → HlsError
  resolve_segment build_segment_request fetch_segment segment_returned read_segment :
      Bytes → HlsError
  invalid_duration : (value error : Bytes) → HlsError

pub record HlsSegment : Type 0 where
  pub uri : Bytes
  pub duration : ℤ

abbrev extinf : Bytes
unfolding text
extinf = text "#EXTINF:"

-- The text before the first comma, or all of it.
unfoldable pub before_comma : Bytes → Bytes
before_comma [] = []
before_comma (c ∷ s) = let rest = c ∷ before_comma s in if c == b',' then [] else rest

unfoldable pub to_line : ℕ → List Bytes → List Bytes
to_line c [] = (c ∷ []) ∷ []
to_line c (line ∷ lines) = (c ∷ line) ∷ lines

-- The text between the newlines; there is no line behind the last newline.
unfoldable pub split_lines : Bytes → List Bytes
unfolding to_line
split_lines [] = []
split_lines (c ∷ s) = let rest = split_lines s in if c == b'\n' then [] ∷ rest else to_line c rest

module _ (parse_seconds : Bytes → Result Bytes ℤ) where
  unfoldable pub seconds_of : Bytes → Result HlsError ℤ
  seconds_of [] = err missing_duration
  seconds_of (c ∷ value) = elim (parse_seconds (c ∷ value)) [
    | ok d ↦ ok d
    | err e ↦ err (invalid_duration (c ∷ value) e)
  ]

  without_prefix : Option Bytes → Bytes → Bytes
  without_prefix none line = line
  without_prefix (some rest) line = rest

  unfoldable pub parse_duration : Bytes → Result HlsError ℤ
  unfolding seconds_of before_comma trim_space strip_prefix without_prefix extinf
  parse_duration line =
      seconds_of (trim_space (before_comma (without_prefix (strip_prefix extinf line) line)))

  add_segment : HlsSegment → Result HlsError (List HlsSegment) → Result HlsError (List HlsSegment)
  add_segment seg (ok segs) = ok (seg ∷ segs)
  add_segment seg (err e) = err e

  -- A trimmed line; `next` is the rest of the loop, of the pending duration.
  unfoldable pub on_line :
      ℤ → (ℤ → Result HlsError (List HlsSegment)) → Bytes → Result HlsError (List HlsSegment)
  unfolding parse_duration has_prefix add_segment extinf
  on_line pending next [] = next pending
  on_line pending next (c ∷ line) =
      if has_prefix extinf (c ∷ line)
      then elim (parse_duration (c ∷ line)) [ ok d ↦ next d | err e ↦ err e ]
      else if c == b'#'
      then next pending
      else add_segment (record { uri = c ∷ line; duration = pending }) (next (pos 0))

  -- A line does not fit the scanner's buffer from 64 KiB on. The carriage return that the scanner
  -- cuts off a line is cut off by TrimSpace too.
  unfoldable pub parse_lines : List Bytes → ℤ → Result HlsError (List HlsSegment)
  unfolding on_line trim_space
  parse_lines [] pending = ok []
  parse_lines (line ∷ lines) pending =
      let next = parse_lines lines in
      if leb (64 * 1024) (length line)
      then err line_too_long
      else on_line pending next (trim_space line)

  unfoldable pub parse_playlist : Bytes → Result HlsError (List HlsSegment)
  unfolding parse_lines split_lines
  parse_playlist body = parse_lines (split_lines body) (pos 0)
