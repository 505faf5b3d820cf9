-- ===== src/Strerrno.antt =====
-- src/strerrno.cxx: the macro names of error numbers.
use libcwd.Base.{ℕ, Option, none, some, List, [], ◌∷◌, codes, length, get_elem?, leb, if◌then◌else◌}

abbrev strerrno_table_c : List (List ℕ)
strerrno_table_c =
    codes "0"
    ∷ codes "EPERM"
    ∷ codes "ENOENT"
    ∷ codes "ESRCH"
    ∷ codes "EINTR"
    ∷ codes "EIO"
    ∷ codes "ENXIO"
    ∷ codes "E2BIG"
    ∷ codes "ENOEXEC"
    ∷ codes "EBADF"
    ∷ codes "ECHILD"
    ∷ codes "EAGAIN"
    ∷ codes "ENOMEM"
    ∷ codes "EACCES"
    ∷ codes "EFAULT"
    ∷ codes "ENOTBLK"
    ∷ codes "EBUSY"
    ∷ codes "EEXIST"
    ∷ codes "EXDEV"
    ∷ codes "ENODEV"
    ∷ codes "ENOTDIR"
    ∷ codes "EISDIR"
    ∷ codes "EINVAL"
    ∷ codes "ENFILE"
    ∷ codes "EMFILE"
    ∷ codes "ENOTTY"
    ∷ codes "ETXTBSY"
    ∷ codes "EFBIG"
    ∷ codes "ENOSPC"
    ∷ codes "ESPIPE"
    ∷ codes "EROFS"
    ∷ codes "EMLINK"
    ∷ codes "EPIPE"
    ∷ codes "EDOM"
    ∷ codes "ERANGE"
    ∷ codes "EDEADLK"
    ∷ codes "ENAMETOOLONG"
    ∷ codes "ENOLCK"
    ∷ codes "ENOSYS"
    ∷ codes "ENOTEMPTY"
    ∷ codes "ELOOP"
    ∷ codes "EWOULDBLOCK"
    ∷ codes "ENOMSG"
    ∷ codes "EIDRM"
    ∷ codes "ECHRNG"
    ∷ codes "EL2NSYNC"
    ∷ codes "EL3HLT"
    ∷ codes "EL3RST"
    ∷ codes "ELNRNG"
    ∷ codes "EUNATCH"
    ∷ codes "ENOCSI"
    ∷ codes "EL2HLT"
    ∷ codes "EBADE"
    ∷ codes "EBADR"
    ∷ codes "EXFULL"
    ∷ codes "ENOANO"
    ∷ codes "EBADRQC"
    ∷ codes "EBADSLT"
    ∷ codes "EDEADLOCK"
    ∷ codes "EBFONT"
    ∷ codes "ENOSTR"
    ∷ codes "ENODATA"
    ∷ codes "ETIME"
    ∷ codes "ENOSR"
    ∷ codes "ENONET"
    ∷ codes "ENOPKG"
    ∷ codes "EREMOTE"
    ∷ codes "ENOLINK"
    ∷ codes "EADV"
    ∷ codes "ESRMNT"
    ∷ codes "ECOMM"
    ∷ codes "EPROTO"
    ∷ codes "EMULTIHOP"
    ∷ codes "EDOTDOT"
    ∷ codes "EBADMSG"
    ∷ codes "EOVERFLOW"
    ∷ codes "ENOTUNIQ"
    ∷ codes "EBADFD"
    ∷ codes "EREMCHG"
    ∷ codes "ELIBACC"
    ∷ codes "ELIBBAD"
    ∷ codes "ELIBSCN"
    ∷ codes "ELIBMAX"
    ∷ codes "ELIBEXEC"
    ∷ codes "EILSEQ"
    ∷ codes "ERESTART"
    ∷ codes "ESTRPIPE"
    ∷ codes "EUSERS"
    ∷ codes "ENOTSOCK"
    ∷ codes "EDESTADDRREQ"
    ∷ codes "EMSGSIZE"
    ∷ codes "EPROTOTYPE"
    ∷ codes "ENOPROTOOPT"
    ∷ codes "EPROTONOSUPPORT"
    ∷ codes "ESOCKTNOSUPPORT"
    ∷ codes "EOPNOTSUPP"
    ∷ codes "EPFNOSUPPORT"
    ∷ codes "EAFNOSUPPORT"
    ∷ codes "EADDRINUSE"
    ∷ codes "EADDRNOTAVAIL"
    ∷ codes "ENETDOWN"
    ∷ codes "ENETUNREACH"
    ∷ codes "ENETRESET"
    ∷ codes "ECONNABORTED"
    ∷ codes "ECONNRESET"
    ∷ codes "ENOBUFS"
    ∷ codes "EISCONN"
    ∷ codes "ENOTCONN"
    ∷ codes "ESHUTDOWN"
    ∷ codes "ETOOMANYREFS"
    ∷ codes "ETIMEDOUT"
    ∷ codes "ECONNREFUSED"
    ∷ codes "EHOSTDOWN"
    ∷ codes "EHOSTUNREACH"
    ∷ codes "EALREADY"
    ∷ codes "EINPROGRESS"
    ∷ codes "ESTALE"
    ∷ codes "EUCLEAN"
    ∷ codes "ENOTNAM"
    ∷ codes "ENAVAIL"
    ∷ codes "EISNAM"
    ∷ codes "EREMOTEIO"
    ∷ codes "EDQUOT"
    ∷ []

abbrev unknown_error : List ℕ
unknown_error = codes "UNKNOWN ERROR"

entry : Option (List ℕ) → List ℕ
entry none = []
entry (some name) = name

unfoldable pub strerrno : ℕ → List ℕ
unfolding entry
strerrno err =
    if leb (length strerrno_table_c) err
    then unknown_error
    else entry (get_elem? strerrno_table_c err)
