-- ===== src/Lib.antt =====
-- XiaobaiOS: a verification library for the user space of the operating system. Its programs are
-- commands of a shell; they stand on a C library of their own and on a runtime that they share.
--
-- Parts, and where they are:
--   Libc/Ctype      xiaobaios/src/libc_ctype.c: the character classes and the case maps.
--   Libc/Memory     the mem functions of xiaobaios/src/libc_string.c, on a memory that is a function
--                   from addresses to bytes: memset, memcpy, memmove, memcmp, memchr.
--   Libc/Pointer    a char pointer with the bytes that stand from it on.
--   Libc/Copying    strlen, strnlen, strcpy, strncpy, strcat and strncat of libc_string.c.
--   Libc/Comparing  the comparisons of libc_string.c and xiaobaios/src/libc_strings.c.
--   Libc/Searching  the searches and the tokenizer of libc_string.c.
--   Libc/Number     the number readers of xiaobaios/src/libc_stdlib.c, and its generator rand.
--   Libc/Heap       the allocator of libc_stdlib.c: malloc, calloc, free and realloc.
--   Runtime/Resolve path resolution in xiaobaios/apps/cmd_runtime.c.
--   Runtime/Words   numbers, trimming, command lines and arguments in cmd_runtime.c.
--   Runtime/Access  the rule on changing a path, and the search for a command, in cmd_runtime.c. It
--                   works on what Runtime/Resolve resolves.
--   User/Compress   the compression of one block in xiaobaios/apps/user/cleonos_user.c.
--   User/Sha        the hash of passwords there. A context holds the buffer of 64 bytes; what it
--                   holds before the first call is a parameter.
--   User/Records    the records of accounts there, as lines of text.
--   User/Kernel     the calls of the kernel that the accounts make: a record that the operations take,
--                   and what the calls promise about the database's file.
--   User/Database   the account database there: lines of a file, the search for a name and the rewrite.
--   User/Accounts   the operations on accounts there: creation, passwords, roles, removal, the list and
--                   the session. They ask the kernel first, and work on User/Database where that fails.
--   Json            xiaobaios/apps/pkg_cjson_min.c: the JSON reader of the package manager. Json/Text
--                   and Json/Number read strings and numbers, Json/Parse the values, Json/Access
--                   answers questions about items; Json/Print is a printer to compare the reader with.
--   Editor          xiaobaios/apps/vim_main.c: Editor/State is the buffer and its cursor, Editor/Edits
--                   the edits, Editor/Keys the keys in the insert and normal modes, Editor/Files
--                   loading and saving, Editor/Commands the command line and the loop. The path of a
--                   write goes through Runtime/Resolve.
--   Browser/Url     the addresses of xiaobaios/apps/browser/browser_url_parse.c. A port is read by the
--                   number reader of Runtime/Words.
--   Base            shared names, list functions and integers over the native numbers.
--   Tests           runs at concrete inputs, and each theorem applied at one.
--
-- A function keeps its C name, without the prefixes clib_, ush_, cu_ and cleonos_user_. In Libc, a C
-- string in a buffer is its bytes with the NUL and what stands behind it, and reading or writing
-- behind the last byte gives `none`, which the code leaves undefined. In Runtime and User, where
-- every buffer has its size passed along, a C string is the list of its characters, without the NUL,
-- and a call of the C library on it is written out as what it does to that list. Code that changes
-- memory takes the memory or the buffer and returns it changed. A word of 64 bits is a number with its
-- wrap-around written out.
--
-- The heap is the list of its blocks in the order of the `next` pointers. The `prev` pointers and
-- the tail are that order read backwards, and are not stored twice. What the kernel returns for a
-- request of memory is a parameter: a function from the size to an address, 0 for a failure.
-- Where the list says nothing of the memory that the code would write to, the operations give `none`:
-- free and realloc of a pointer that no block has, and malloc of a size within 48 bytes of 2 ^ 64, when
-- a fresh chunk is split for it.
--
-- Loops are structural recursion on the text, or on the count that the loop goes down from, where the
-- code has such a count. The rest has fuel: the JSON reader two units for each character and one more,
-- for a call that goes down and for a round of a loop; its strings one for each character and one more;
-- and the loop that writes a text to a file one for each byte and one more, since a round that goes on
-- has written a byte.
--
-- In Json, an item is a tree, the text is the bytes from the position to the end, an allocation is taken
-- to succeed, and an int that overflows is an outcome of its own. The nesting limit, which a header
-- outside the repository sets, is a parameter. In Editor, the lines are those that the count covers, and
-- the kernel's calls on files and what snprintf prints for a number are a parameter.
--
-- Not modelled: floating point (strtod, atof, libc_math.c), the wrappers of kernel calls, the kernel
-- itself, the drawing of the editor and its wait for a key, freeing and the empty printing functions of
-- the JSON file, fonts and images, and the other interactive programs, whose loops wait for events.
pub mod Base
pub mod Libc
pub mod Runtime
pub mod User
pub mod Json
pub mod Editor
pub mod Browser
mod Tests
