-- ===== src/Exception.antt =====
-- log/Exception.cpp: a message, and the call stack at its place as text.
use raft_server.Prelude.{Bytes, List, Option, [], none, some, ◌++◌, ◌∷◌}
use raft_server.Nanoraft.Log.{c_string}

pub record Exception : Type 0 where
  pub message : Bytes
  pub stack : Bytes

abbrev pub append_symbols : List Bytes → Bytes → Bytes
append_symbols [] stack = stack
append_symbols (symbol ∷ symbols) stack = append_symbols symbols (stack ++ (symbol ++ (10 ∷ [])))

-- Exception::FillStackTrace, over what backtrace_symbols gives; none for a null pointer
unfoldable pub fill_stack_trace : Option (List Bytes) → Exception → Exception
fill_stack_trace none e = e
fill_stack_trace (some symbols) e = record e { stack = append_symbols symbols e.stack }

-- Exception::Exception
unfoldable pub new_exception : Bytes → Option (List Bytes) → Exception
unfolding fill_stack_trace
new_exception message symbols = fill_stack_trace symbols (record { message = message; stack = [] })

-- Exception::StackTrace, read as a C string
unfoldable pub stack_trace : Exception → Bytes
stack_trace e = c_string e.stack
