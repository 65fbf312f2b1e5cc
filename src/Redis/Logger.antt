-- ===== src/Redis/Logger.antt =====
-- log/Logger.cpp: what a restart finds of the work that was begun and not done.
pub mod Expired
use raft_server.Prelude.{
  Bool, Bytes, List, Result, [], drop, empty_pop, false, fault, if◌then◌else◌, length, ltb, ok,
  overflow, take, true, ℕ, ◌&&◌, ◌++◌, ◌+◌, ◌-◌, ◌==◌, ◌>>=◌, ◌||◌, ◌∷◌,
}

abbrev is_prefix : Bytes → Bytes → Bool
is_prefix [] s = true
is_prefix (c ∷ cs) [] = false
is_prefix (c ∷ cs) (b ∷ bs) = c == b && is_prefix cs bs

-- `find(…) != npos`
unfoldable pub contains : Bytes → Bytes → Bool
contains pattern [] = is_prefix pattern []
contains pattern (b ∷ bs) = is_prefix pattern (b ∷ bs) || contains pattern bs

-- "pre:", "done:", "pre:EXPIRE"
abbrev pub pre : Bytes
pre = 112 ∷ 114 ∷ 101 ∷ 58 ∷ []

abbrev pub done : Bytes
done = 100 ∷ 111 ∷ 110 ∷ 101 ∷ 58 ∷ []

abbrev pub pre_expire : Bytes
pre_expire = pre ++ (69 ∷ 88 ∷ 80 ∷ 73 ∷ 82 ∷ 69 ∷ [])

-- `pop`
abbrev pop : List Bytes → Result (List Bytes)
pop [] = fault empty_pop
pop (top ∷ rest) = ok rest

-- One line of the log. The head of the stack is its top.
unfoldable pub scan_line : Bytes → List Bytes → Result (List Bytes)
unfolding contains
scan_line line stack =
    let begun = if contains pre line then line ∷ stack else stack in
    if contains done line then pop begun else ok begun

unfoldable pub scan : List Bytes → List Bytes → Result (List Bytes)
unfolding scan_line
scan [] stack = ok stack
scan (line ∷ lines) stack = scan_line line stack >>= scan lines

-- where the spaces are, `k` bytes into the line
unfoldable pub spaces : ℕ → Bytes → List ℕ
spaces k [] = []
spaces k (b ∷ bs) = let rest = spaces (k + 1) bs in if b == 32 then k ∷ rest else rest

-- what stands between each space and the next
unfoldable pub between : Bytes → List ℕ → List Bytes
between line [] = []
between line (a ∷ []) = []
between line (a ∷ b ∷ places) = take (b - a - 1) (drop (a + 1) line) ∷ between line (b ∷ places)

-- The names in a line. The array of places has ten elements.
unfoldable pub openids_of : Bytes → Result (List Bytes)
unfolding contains spaces between
openids_of line =
    if contains pre_expire line
    then (if ltb 10 (length (spaces 0 line))
        then fault overflow
        else ok (between line (spaces 0 line)))
    else ok []

unfoldable pub unwind : List Bytes → Result (List Bytes)
unfolding openids_of
unwind [] = ok []
unwind (top ∷ stack) = do found ← openids_of top; rest ← unwind stack; ok (found ++ rest)

-- Logger::Restore
unfoldable pub restore : List Bytes → Result (List Bytes)
unfolding scan unwind
restore lines = do stack ← scan lines []; unwind stack
