-- ===== src/Examples/Logs.antt =====
-- The theorems on the log files, for three lines of two days.
use gotaxy.Prelude.{String, ◌≡◌, refl, true, false, some, List, [], ◌∷◌, map}
use gotaxy.Wire.{Bytes, Written, whole, part}
use gotaxy.Logger.{stdout, RollingFileWriter, new_rolling_file_writer, is_closed, write}
use gotaxy.Logger.Days.{write_all, dated, on_their_days, write_all-dated, write-stdout}

abbrev lines : List (String × Bytes × Written)
lines =
    ("2026-01-01", 1 ∷ [], whole)
    ∷ ("2026-01-02", 2 ∷ 3 ∷ [], part 1)
    ∷ ("2026-01-02", 4 ∷ [], whole)
    ∷ []

write_all-dated_example :
    map dated (write_all lines (new_rolling_file_writer "2026-01-01")).written ≡ on_their_days lines
write_all-dated_example = write_all-dated "2026-01-01" lines

abbrev fallen_back : RollingFileWriter
fallen_back = record (new_rolling_file_writer "2026-01-01") { current_file = some stdout }

write-stdout_example :
    (is_closed (write "2026-01-02" true whole (1 ∷ []) fallen_back).0.closed stdout ≡ true)
    × ((write "2026-01-02" false whole (1 ∷ []) fallen_back).1 ≡ false)
write-stdout_example = write-stdout fallen_back "2026-01-02" whole (1 ∷ []) refl refl
