-- ===== src/File/Descriptor.antt =====
-- The constructor and the destructor of src/feed_reader.cpp. What `open` gives is a parameter.
use itch_parser.Prelude.Descriptors.{Opening, close_fd, close_fd_first}
use itch_parser.Prelude.Result.{ok, err, runtime_error, cannot_open}
use itch_parser.Prelude.{ℕ, ◌≡◌, List, ◌∷◌, Option, none, some}

unfoldable pub open_file : Option ℕ → List ℕ → Opening ℕ
open_file none open_fds = (err (runtime_error cannot_open), open_fds)
open_file (some fd) open_fds = (ok fd, fd ∷ open_fds)

unfoldable pub close_file : ℕ → List ℕ → List ℕ
close_file fd open_fds = close_fd fd open_fds

-- The destructor closes what the constructor opened, and no other descriptor.
close_file-open_file :
    (fd : ℕ) (open_fds : List ℕ) → close_file fd (open_file (some fd) open_fds).1 ≡ open_fds
unfolding close_file open_file
close_file-open_file fd open_fds = close_fd_first fd open_fds
