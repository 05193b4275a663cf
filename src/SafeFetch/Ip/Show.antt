-- ===== src/SafeFetch/Ip/Show.antt =====
-- packages/automa-safe-fetch/src/ip.ts, `ipToString`.
use mathlib.Core.List.{map}
use automa_build.Prelude.{
  ℕ, ◌+◌, ◌-◌, ◌*◌, Option, none, some, List, [], ◌∷◌, ◌++◌, ltb, ◌==◌, if◌then◌else◌, length, Text,
  join, text_eq, take, drop, show_number,
}

-- `(bytes[i] << 8) | bytes[i + 1]` in hexadecimal, two bytes at a time
groups_from : List ℕ → List Text
unfolding show_number
groups_from [] = []
groups_from (x ∷ []) = []
groups_from (x ∷ y ∷ r) = show_number 16 (x * 256 + y) ∷ groups_from r

-- the state of the loop that looks for the longest run of zero groups
record Run : Type 0 where
  best_start : ℕ
  best_length : ℕ
  run_start : Option ℕ

end_run : ℕ → Run → Run
end_run i s = elim s.run_start [
  | none ↦ s
  | some start ↦
      if ltb s.best_length (i - start)
      then record { best_start = start; best_length = i - start; run_start = none }
      else record s { run_start = none }
]

longest_run : List Text → ℕ → Run → Run
unfolding end_run
longest_run [] i s = end_run i s
longest_run (g ∷ gs) i s = longest_run gs (i + 1) (
    if text_eq g (b'0' ∷ [])
    then elim s.run_start [ none ↦ record s { run_start = some i } | some _ ↦ s ]
    else end_run i s)

compress : List Text → Text
unfolding longest_run
compress groups =
    let best =
      longest_run groups 0 (record { best_start = 0; best_length = 0; run_start = none }) in
    if ltb best.best_length 2
    then join b':' groups
    else join b':' (take best.best_start groups)
      ++ b':' ∷ b':' ∷ join b':' (drop (best.best_start + best.best_length) groups)

unfoldable pub ip_to_string : List ℕ → Text
unfolding show_number groups_from compress
ip_to_string bytes =
    if length bytes == 4
    then join b'.' (map (show_number 10) bytes)
    else compress (groups_from bytes)
