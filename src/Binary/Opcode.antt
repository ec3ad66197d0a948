-- ===== src/Binary/Opcode.antt =====
-- The opcodes of the binary protocol (protocol_binary_command of memcached-1.4/protocol_binary.h).
use reading_and_comprehense.Base.{ℕ}

abbrev pub get : ℕ
get = 0x00

abbrev pub set : ℕ
set = 0x01

abbrev pub add : ℕ
add = 0x02

abbrev pub replace : ℕ
replace = 0x03

abbrev pub delete : ℕ
delete = 0x04

abbrev pub increment : ℕ
increment = 0x05

abbrev pub decrement : ℕ
decrement = 0x06

abbrev pub quit : ℕ
quit = 0x07

abbrev pub flush : ℕ
flush = 0x08

abbrev pub getq : ℕ
getq = 0x09

abbrev pub noop : ℕ
noop = 0x0a

abbrev pub version : ℕ
version = 0x0b

abbrev pub getk : ℕ
getk = 0x0c

abbrev pub getkq : ℕ
getkq = 0x0d

abbrev pub append : ℕ
append = 0x0e

abbrev pub prepend : ℕ
prepend = 0x0f

abbrev pub stat : ℕ
stat = 0x10

abbrev pub setq : ℕ
setq = 0x11

abbrev pub addq : ℕ
addq = 0x12

abbrev pub replaceq : ℕ
replaceq = 0x13

abbrev pub deleteq : ℕ
deleteq = 0x14

abbrev pub incrementq : ℕ
incrementq = 0x15

abbrev pub decrementq : ℕ
decrementq = 0x16

abbrev pub quitq : ℕ
quitq = 0x17

abbrev pub flushq : ℕ
flushq = 0x18

abbrev pub appendq : ℕ
appendq = 0x19

abbrev pub prependq : ℕ
prependq = 0x1a

abbrev pub touch : ℕ
touch = 0x1c

abbrev pub gat : ℕ
gat = 0x1d

abbrev pub gatq : ℕ
gatq = 0x1e

abbrev pub gatk : ℕ
gatk = 0x23

abbrev pub gatkq : ℕ
gatkq = 0x24

abbrev pub sasl_list_mechs : ℕ
sasl_list_mechs = 0x20

abbrev pub sasl_auth : ℕ
sasl_auth = 0x21

abbrev pub sasl_step : ℕ
sasl_step = 0x22
