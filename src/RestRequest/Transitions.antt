-- ===== src/RestRequest/Transitions.antt =====
-- src/fir/RestRequest.cpp: the tables of the machine that have an entry for each key or transition.
use swirlyc.Common.{ℕ, List, [], ◌∷◌}

unfoldable pub json_trans_keys : List ℕ
json_trans_keys =
    32 ∷ 123 ∷ 9 ∷ 13 ∷ 32 ∷ 34 ∷ 125 ∷ 9 ∷ 13 ∷ 67 ∷ 68 ∷ 69 ∷ 76 ∷ 77 ∷ 82 ∷ 83 ∷ 84 ∷ 99 ∷ 100
    ∷ 101 ∷ 108 ∷ 109 ∷ 114 ∷ 115 ∷ 116 ∷ 79 ∷ 80 ∷ 111 ∷ 112 ∷ 78 ∷ 110 ∷ 84 ∷ 116 ∷ 82 ∷ 114 ∷ 34
    ∷ 32 ∷ 58 ∷ 9 ∷ 13 ∷ 32 ∷ 34 ∷ 110 ∷ 9 ∷ 13 ∷ 34 ∷ 92 ∷ 32 ∷ 44 ∷ 125 ∷ 9 ∷ 13 ∷ 32 ∷ 44 ∷ 125
    ∷ 9 ∷ 13 ∷ 32 ∷ 34 ∷ 9 ∷ 13 ∷ 117 ∷ 108 ∷ 108 ∷ 32 ∷ 44 ∷ 125 ∷ 9 ∷ 13 ∷ 84 ∷ 116 ∷ 89 ∷ 121
    ∷ 34 ∷ 32 ∷ 58 ∷ 9 ∷ 13 ∷ 32 ∷ 34 ∷ 110 ∷ 9 ∷ 13 ∷ 34 ∷ 92 ∷ 32 ∷ 44 ∷ 125 ∷ 9 ∷ 13 ∷ 117 ∷ 108
    ∷ 108 ∷ 32 ∷ 44 ∷ 125 ∷ 9 ∷ 13 ∷ 73 ∷ 105 ∷ 83 ∷ 115 ∷ 80 ∷ 112 ∷ 76 ∷ 108 ∷ 65 ∷ 97 ∷ 89 ∷ 121
    ∷ 34 ∷ 32 ∷ 58 ∷ 9 ∷ 13 ∷ 32 ∷ 34 ∷ 110 ∷ 9 ∷ 13 ∷ 34 ∷ 92 ∷ 32 ∷ 44 ∷ 125 ∷ 9 ∷ 13 ∷ 117 ∷ 108
    ∷ 108 ∷ 32 ∷ 44 ∷ 125 ∷ 9 ∷ 13 ∷ 77 ∷ 88 ∷ 109 ∷ 120 ∷ 65 ∷ 97 ∷ 73 ∷ 105 ∷ 76 ∷ 108 ∷ 34 ∷ 32
    ∷ 58 ∷ 9 ∷ 13 ∷ 32 ∷ 34 ∷ 110 ∷ 9 ∷ 13 ∷ 34 ∷ 92 ∷ 32 ∷ 44 ∷ 125 ∷ 9 ∷ 13 ∷ 117 ∷ 108 ∷ 108 ∷ 32
    ∷ 44 ∷ 125 ∷ 9 ∷ 13 ∷ 80 ∷ 112 ∷ 73 ∷ 105 ∷ 82 ∷ 114 ∷ 89 ∷ 121 ∷ 68 ∷ 100 ∷ 65 ∷ 97 ∷ 84 ∷ 116
    ∷ 69 ∷ 101 ∷ 34 ∷ 32 ∷ 58 ∷ 9 ∷ 13 ∷ 32 ∷ 43 ∷ 45 ∷ 110 ∷ 9 ∷ 13 ∷ 48 ∷ 57 ∷ 48 ∷ 57 ∷ 32 ∷ 44
    ∷ 125 ∷ 9 ∷ 13 ∷ 48 ∷ 57 ∷ 117 ∷ 108 ∷ 108 ∷ 32 ∷ 44 ∷ 125 ∷ 9 ∷ 13 ∷ 79 ∷ 111 ∷ 84 ∷ 116 ∷ 83
    ∷ 115 ∷ 34 ∷ 32 ∷ 58 ∷ 9 ∷ 13 ∷ 32 ∷ 43 ∷ 45 ∷ 110 ∷ 9 ∷ 13 ∷ 48 ∷ 57 ∷ 48 ∷ 57 ∷ 32 ∷ 44 ∷ 125
    ∷ 9 ∷ 13 ∷ 48 ∷ 57 ∷ 117 ∷ 108 ∷ 108 ∷ 32 ∷ 44 ∷ 125 ∷ 9 ∷ 13 ∷ 73 ∷ 78 ∷ 105 ∷ 110 ∷ 78 ∷ 110
    ∷ 76 ∷ 108 ∷ 79 ∷ 111 ∷ 84 ∷ 116 ∷ 83 ∷ 115 ∷ 34 ∷ 32 ∷ 58 ∷ 9 ∷ 13 ∷ 32 ∷ 43 ∷ 45 ∷ 110 ∷ 9
    ∷ 13 ∷ 48 ∷ 57 ∷ 48 ∷ 57 ∷ 32 ∷ 44 ∷ 125 ∷ 9 ∷ 13 ∷ 48 ∷ 57 ∷ 117 ∷ 108 ∷ 108 ∷ 32 ∷ 44 ∷ 125
    ∷ 9 ∷ 13 ∷ 69 ∷ 101 ∷ 77 ∷ 109 ∷ 34 ∷ 32 ∷ 58 ∷ 9 ∷ 13 ∷ 32 ∷ 34 ∷ 110 ∷ 9 ∷ 13 ∷ 34 ∷ 92 ∷ 32
    ∷ 44 ∷ 125 ∷ 9 ∷ 13 ∷ 117 ∷ 108 ∷ 108 ∷ 32 ∷ 44 ∷ 125 ∷ 9 ∷ 13 ∷ 69 ∷ 79 ∷ 101 ∷ 111 ∷ 70 ∷ 102
    ∷ 34 ∷ 32 ∷ 58 ∷ 9 ∷ 13 ∷ 32 ∷ 34 ∷ 110 ∷ 9 ∷ 13 ∷ 34 ∷ 92 ∷ 32 ∷ 44 ∷ 125 ∷ 9 ∷ 13 ∷ 117 ∷ 108
    ∷ 108 ∷ 32 ∷ 44 ∷ 125 ∷ 9 ∷ 13 ∷ 76 ∷ 108 ∷ 69 ∷ 101 ∷ 34 ∷ 32 ∷ 58 ∷ 9 ∷ 13 ∷ 32 ∷ 34 ∷ 110 ∷ 9
    ∷ 13 ∷ 77 ∷ 84 ∷ 109 ∷ 116 ∷ 65 ∷ 97 ∷ 75 ∷ 107 ∷ 69 ∷ 101 ∷ 82 ∷ 114 ∷ 34 ∷ 32 ∷ 44 ∷ 125 ∷ 9
    ∷ 13 ∷ 65 ∷ 97 ∷ 75 ∷ 107 ∷ 69 ∷ 101 ∷ 82 ∷ 114 ∷ 34 ∷ 32 ∷ 44 ∷ 125 ∷ 9 ∷ 13 ∷ 117 ∷ 108 ∷ 108
    ∷ 32 ∷ 44 ∷ 125 ∷ 9 ∷ 13 ∷ 69 ∷ 73 ∷ 84 ∷ 101 ∷ 105 ∷ 116 ∷ 84 ∷ 116 ∷ 84 ∷ 116 ∷ 76 ∷ 108 ∷ 68
    ∷ 100 ∷ 65 ∷ 97 ∷ 84 ∷ 116 ∷ 69 ∷ 101 ∷ 34 ∷ 32 ∷ 58 ∷ 9 ∷ 13 ∷ 32 ∷ 43 ∷ 45 ∷ 110 ∷ 9 ∷ 13 ∷ 48
    ∷ 57 ∷ 48 ∷ 57 ∷ 32 ∷ 44 ∷ 125 ∷ 9 ∷ 13 ∷ 48 ∷ 57 ∷ 117 ∷ 108 ∷ 108 ∷ 32 ∷ 44 ∷ 125 ∷ 9 ∷ 13
    ∷ 68 ∷ 100 ∷ 69 ∷ 101 ∷ 34 ∷ 32 ∷ 58 ∷ 9 ∷ 13 ∷ 32 ∷ 34 ∷ 110 ∷ 9 ∷ 13 ∷ 66 ∷ 83 ∷ 98 ∷ 115 ∷ 85
    ∷ 117 ∷ 89 ∷ 121 ∷ 34 ∷ 32 ∷ 44 ∷ 125 ∷ 9 ∷ 13 ∷ 69 ∷ 101 ∷ 76 ∷ 108 ∷ 76 ∷ 108 ∷ 34 ∷ 32 ∷ 44
    ∷ 125 ∷ 9 ∷ 13 ∷ 117 ∷ 108 ∷ 108 ∷ 32 ∷ 44 ∷ 125 ∷ 9 ∷ 13 ∷ 65 ∷ 97 ∷ 84 ∷ 116 ∷ 69 ∷ 101 ∷ 34
    ∷ 32 ∷ 58 ∷ 9 ∷ 13 ∷ 32 ∷ 43 ∷ 45 ∷ 110 ∷ 9 ∷ 13 ∷ 48 ∷ 57 ∷ 48 ∷ 57 ∷ 32 ∷ 44 ∷ 125 ∷ 9 ∷ 13
    ∷ 48 ∷ 57 ∷ 117 ∷ 108 ∷ 108 ∷ 32 ∷ 44 ∷ 125 ∷ 9 ∷ 13 ∷ 73 ∷ 82 ∷ 105 ∷ 114 ∷ 67 ∷ 99 ∷ 75 ∷ 107
    ∷ 83 ∷ 115 ∷ 34 ∷ 32 ∷ 58 ∷ 9 ∷ 13 ∷ 32 ∷ 43 ∷ 45 ∷ 110 ∷ 9 ∷ 13 ∷ 48 ∷ 57 ∷ 48 ∷ 57 ∷ 32 ∷ 44
    ∷ 125 ∷ 9 ∷ 13 ∷ 48 ∷ 57 ∷ 117 ∷ 108 ∷ 108 ∷ 32 ∷ 44 ∷ 125 ∷ 9 ∷ 13 ∷ 65 ∷ 97 ∷ 68 ∷ 100 ∷ 69
    ∷ 101 ∷ 82 ∷ 114 ∷ 34 ∷ 32 ∷ 58 ∷ 9 ∷ 13 ∷ 32 ∷ 34 ∷ 110 ∷ 9 ∷ 13 ∷ 34 ∷ 92 ∷ 32 ∷ 44 ∷ 125 ∷ 9
    ∷ 13 ∷ 117 ∷ 108 ∷ 108 ∷ 32 ∷ 44 ∷ 125 ∷ 9 ∷ 13 ∷ 32 ∷ 9 ∷ 13 ∷ 0 ∷ []

unfoldable pub json_trans_targs : List ℕ
json_trans_targs =
    1 ∷ 2 ∷ 1 ∷ 0 ∷ 2 ∷ 3 ∷ 227 ∷ 2 ∷ 0 ∷ 4 ∷ 32 ∷ 48 ∷ 79 ∷ 91 ∷ 118 ∷ 152 ∷ 200 ∷ 4 ∷ 32 ∷ 48 ∷ 79
    ∷ 91 ∷ 118 ∷ 152 ∷ 200 ∷ 0 ∷ 5 ∷ 20 ∷ 5 ∷ 20 ∷ 0 ∷ 6 ∷ 6 ∷ 0 ∷ 7 ∷ 7 ∷ 0 ∷ 8 ∷ 8 ∷ 0 ∷ 9 ∷ 0 ∷ 9
    ∷ 10 ∷ 9 ∷ 0 ∷ 10 ∷ 11 ∷ 16 ∷ 10 ∷ 0 ∷ 12 ∷ 15 ∷ 11 ∷ 13 ∷ 14 ∷ 227 ∷ 13 ∷ 0 ∷ 13 ∷ 14 ∷ 227
    ∷ 13 ∷ 0 ∷ 14 ∷ 3 ∷ 14 ∷ 0 ∷ 11 ∷ 17 ∷ 0 ∷ 18 ∷ 0 ∷ 19 ∷ 0 ∷ 13 ∷ 14 ∷ 227 ∷ 13 ∷ 0 ∷ 21 ∷ 21
    ∷ 0 ∷ 22 ∷ 22 ∷ 0 ∷ 23 ∷ 0 ∷ 23 ∷ 24 ∷ 23 ∷ 0 ∷ 24 ∷ 25 ∷ 28 ∷ 24 ∷ 0 ∷ 26 ∷ 27 ∷ 25 ∷ 13 ∷ 14
    ∷ 227 ∷ 13 ∷ 0 ∷ 25 ∷ 29 ∷ 0 ∷ 30 ∷ 0 ∷ 31 ∷ 0 ∷ 13 ∷ 14 ∷ 227 ∷ 13 ∷ 0 ∷ 33 ∷ 33 ∷ 0 ∷ 34 ∷ 34
    ∷ 0 ∷ 35 ∷ 35 ∷ 0 ∷ 36 ∷ 36 ∷ 0 ∷ 37 ∷ 37 ∷ 0 ∷ 38 ∷ 38 ∷ 0 ∷ 39 ∷ 0 ∷ 39 ∷ 40 ∷ 39 ∷ 0 ∷ 40
    ∷ 41 ∷ 44 ∷ 40 ∷ 0 ∷ 42 ∷ 43 ∷ 41 ∷ 13 ∷ 14 ∷ 227 ∷ 13 ∷ 0 ∷ 41 ∷ 45 ∷ 0 ∷ 46 ∷ 0 ∷ 47 ∷ 0 ∷ 13
    ∷ 14 ∷ 227 ∷ 13 ∷ 0 ∷ 49 ∷ 62 ∷ 49 ∷ 62 ∷ 0 ∷ 50 ∷ 50 ∷ 0 ∷ 51 ∷ 51 ∷ 0 ∷ 52 ∷ 52 ∷ 0 ∷ 53 ∷ 0
    ∷ 53 ∷ 54 ∷ 53 ∷ 0 ∷ 54 ∷ 55 ∷ 58 ∷ 54 ∷ 0 ∷ 56 ∷ 57 ∷ 55 ∷ 13 ∷ 14 ∷ 227 ∷ 13 ∷ 0 ∷ 55 ∷ 59 ∷ 0
    ∷ 60 ∷ 0 ∷ 61 ∷ 0 ∷ 13 ∷ 14 ∷ 227 ∷ 13 ∷ 0 ∷ 63 ∷ 63 ∷ 0 ∷ 64 ∷ 64 ∷ 0 ∷ 65 ∷ 65 ∷ 0 ∷ 66 ∷ 66
    ∷ 0 ∷ 67 ∷ 67 ∷ 0 ∷ 68 ∷ 68 ∷ 0 ∷ 69 ∷ 69 ∷ 0 ∷ 70 ∷ 70 ∷ 0 ∷ 71 ∷ 0 ∷ 71 ∷ 72 ∷ 71 ∷ 0 ∷ 72
    ∷ 73 ∷ 73 ∷ 75 ∷ 72 ∷ 74 ∷ 0 ∷ 74 ∷ 0 ∷ 13 ∷ 14 ∷ 227 ∷ 13 ∷ 74 ∷ 0 ∷ 76 ∷ 0 ∷ 77 ∷ 0 ∷ 78 ∷ 0
    ∷ 13 ∷ 14 ∷ 227 ∷ 13 ∷ 0 ∷ 80 ∷ 80 ∷ 0 ∷ 81 ∷ 81 ∷ 0 ∷ 82 ∷ 82 ∷ 0 ∷ 83 ∷ 0 ∷ 83 ∷ 84 ∷ 83 ∷ 0
    ∷ 84 ∷ 85 ∷ 85 ∷ 87 ∷ 84 ∷ 86 ∷ 0 ∷ 86 ∷ 0 ∷ 13 ∷ 14 ∷ 227 ∷ 13 ∷ 86 ∷ 0 ∷ 88 ∷ 0 ∷ 89 ∷ 0 ∷ 90
    ∷ 0 ∷ 13 ∷ 14 ∷ 227 ∷ 13 ∷ 0 ∷ 92 ∷ 106 ∷ 92 ∷ 106 ∷ 0 ∷ 93 ∷ 93 ∷ 0 ∷ 94 ∷ 94 ∷ 0 ∷ 95 ∷ 95 ∷ 0
    ∷ 96 ∷ 96 ∷ 0 ∷ 97 ∷ 97 ∷ 0 ∷ 98 ∷ 0 ∷ 98 ∷ 99 ∷ 98 ∷ 0 ∷ 99 ∷ 100 ∷ 100 ∷ 102 ∷ 99 ∷ 101 ∷ 0
    ∷ 101 ∷ 0 ∷ 13 ∷ 14 ∷ 227 ∷ 13 ∷ 101 ∷ 0 ∷ 103 ∷ 0 ∷ 104 ∷ 0 ∷ 105 ∷ 0 ∷ 13 ∷ 14 ∷ 227 ∷ 13 ∷ 0
    ∷ 107 ∷ 107 ∷ 0 ∷ 108 ∷ 108 ∷ 0 ∷ 109 ∷ 0 ∷ 109 ∷ 110 ∷ 109 ∷ 0 ∷ 110 ∷ 111 ∷ 114 ∷ 110 ∷ 0
    ∷ 112 ∷ 113 ∷ 111 ∷ 13 ∷ 14 ∷ 227 ∷ 13 ∷ 0 ∷ 111 ∷ 115 ∷ 0 ∷ 116 ∷ 0 ∷ 117 ∷ 0 ∷ 13 ∷ 14 ∷ 227
    ∷ 13 ∷ 0 ∷ 119 ∷ 130 ∷ 119 ∷ 130 ∷ 0 ∷ 120 ∷ 120 ∷ 0 ∷ 121 ∷ 0 ∷ 121 ∷ 122 ∷ 121 ∷ 0 ∷ 122 ∷ 123
    ∷ 126 ∷ 122 ∷ 0 ∷ 124 ∷ 125 ∷ 123 ∷ 13 ∷ 14 ∷ 227 ∷ 13 ∷ 0 ∷ 123 ∷ 127 ∷ 0 ∷ 128 ∷ 0 ∷ 129 ∷ 0
    ∷ 13 ∷ 14 ∷ 227 ∷ 13 ∷ 0 ∷ 131 ∷ 131 ∷ 0 ∷ 132 ∷ 132 ∷ 0 ∷ 133 ∷ 0 ∷ 133 ∷ 134 ∷ 133 ∷ 0 ∷ 134
    ∷ 135 ∷ 148 ∷ 134 ∷ 0 ∷ 136 ∷ 142 ∷ 136 ∷ 142 ∷ 0 ∷ 137 ∷ 137 ∷ 0 ∷ 138 ∷ 138 ∷ 0 ∷ 139 ∷ 139
    ∷ 0 ∷ 140 ∷ 140 ∷ 0 ∷ 141 ∷ 0 ∷ 13 ∷ 14 ∷ 227 ∷ 13 ∷ 0 ∷ 143 ∷ 143 ∷ 0 ∷ 144 ∷ 144 ∷ 0 ∷ 145
    ∷ 145 ∷ 0 ∷ 146 ∷ 146 ∷ 0 ∷ 147 ∷ 0 ∷ 13 ∷ 14 ∷ 227 ∷ 13 ∷ 0 ∷ 149 ∷ 0 ∷ 150 ∷ 0 ∷ 151 ∷ 0 ∷ 13
    ∷ 14 ∷ 227 ∷ 13 ∷ 0 ∷ 153 ∷ 169 ∷ 188 ∷ 153 ∷ 169 ∷ 188 ∷ 0 ∷ 154 ∷ 154 ∷ 0 ∷ 155 ∷ 155 ∷ 0
    ∷ 156 ∷ 156 ∷ 0 ∷ 157 ∷ 157 ∷ 0 ∷ 158 ∷ 158 ∷ 0 ∷ 159 ∷ 159 ∷ 0 ∷ 160 ∷ 160 ∷ 0 ∷ 161 ∷ 0 ∷ 161
    ∷ 162 ∷ 161 ∷ 0 ∷ 162 ∷ 163 ∷ 163 ∷ 165 ∷ 162 ∷ 164 ∷ 0 ∷ 164 ∷ 0 ∷ 13 ∷ 14 ∷ 227 ∷ 13 ∷ 164 ∷ 0
    ∷ 166 ∷ 0 ∷ 167 ∷ 0 ∷ 168 ∷ 0 ∷ 13 ∷ 14 ∷ 227 ∷ 13 ∷ 0 ∷ 170 ∷ 170 ∷ 0 ∷ 171 ∷ 171 ∷ 0 ∷ 172 ∷ 0
    ∷ 172 ∷ 173 ∷ 172 ∷ 0 ∷ 173 ∷ 174 ∷ 184 ∷ 173 ∷ 0 ∷ 175 ∷ 179 ∷ 175 ∷ 179 ∷ 0 ∷ 176 ∷ 176 ∷ 0
    ∷ 177 ∷ 177 ∷ 0 ∷ 178 ∷ 0 ∷ 13 ∷ 14 ∷ 227 ∷ 13 ∷ 0 ∷ 180 ∷ 180 ∷ 0 ∷ 181 ∷ 181 ∷ 0 ∷ 182 ∷ 182
    ∷ 0 ∷ 183 ∷ 0 ∷ 13 ∷ 14 ∷ 227 ∷ 13 ∷ 0 ∷ 185 ∷ 0 ∷ 186 ∷ 0 ∷ 187 ∷ 0 ∷ 13 ∷ 14 ∷ 227 ∷ 13 ∷ 0
    ∷ 189 ∷ 189 ∷ 0 ∷ 190 ∷ 190 ∷ 0 ∷ 191 ∷ 191 ∷ 0 ∷ 192 ∷ 0 ∷ 192 ∷ 193 ∷ 192 ∷ 0 ∷ 193 ∷ 194
    ∷ 194 ∷ 196 ∷ 193 ∷ 195 ∷ 0 ∷ 195 ∷ 0 ∷ 13 ∷ 14 ∷ 227 ∷ 13 ∷ 195 ∷ 0 ∷ 197 ∷ 0 ∷ 198 ∷ 0 ∷ 199
    ∷ 0 ∷ 13 ∷ 14 ∷ 227 ∷ 13 ∷ 0 ∷ 201 ∷ 213 ∷ 201 ∷ 213 ∷ 0 ∷ 202 ∷ 202 ∷ 0 ∷ 203 ∷ 203 ∷ 0 ∷ 204
    ∷ 204 ∷ 0 ∷ 205 ∷ 0 ∷ 205 ∷ 206 ∷ 205 ∷ 0 ∷ 206 ∷ 207 ∷ 207 ∷ 209 ∷ 206 ∷ 208 ∷ 0 ∷ 208 ∷ 0 ∷ 13
    ∷ 14 ∷ 227 ∷ 13 ∷ 208 ∷ 0 ∷ 210 ∷ 0 ∷ 211 ∷ 0 ∷ 212 ∷ 0 ∷ 13 ∷ 14 ∷ 227 ∷ 13 ∷ 0 ∷ 214 ∷ 214 ∷ 0
    ∷ 215 ∷ 215 ∷ 0 ∷ 216 ∷ 216 ∷ 0 ∷ 217 ∷ 217 ∷ 0 ∷ 218 ∷ 0 ∷ 218 ∷ 219 ∷ 218 ∷ 0 ∷ 219 ∷ 220
    ∷ 223 ∷ 219 ∷ 0 ∷ 221 ∷ 222 ∷ 220 ∷ 13 ∷ 14 ∷ 227 ∷ 13 ∷ 0 ∷ 220 ∷ 224 ∷ 0 ∷ 225 ∷ 0 ∷ 226 ∷ 0
    ∷ 13 ∷ 14 ∷ 227 ∷ 13 ∷ 0 ∷ 227 ∷ 227 ∷ 0 ∷ 0 ∷ []

unfoldable pub json_trans_actions : List ℕ
json_trans_actions =
    0 ∷ 0 ∷ 0 ∷ 0 ∷ 0 ∷ 0 ∷ 0 ∷ 0 ∷ 0 ∷ 0 ∷ 0 ∷ 0 ∷ 0 ∷ 0 ∷ 0 ∷ 0 ∷ 0 ∷ 0 ∷ 0 ∷ 0 ∷ 0 ∷ 0 ∷ 0 ∷ 0
    ∷ 0 ∷ 0 ∷ 0 ∷ 0 ∷ 0 ∷ 0 ∷ 0 ∷ 0 ∷ 0 ∷ 0 ∷ 0 ∷ 0 ∷ 0 ∷ 0 ∷ 0 ∷ 0 ∷ 0 ∷ 0 ∷ 0 ∷ 0 ∷ 0 ∷ 0 ∷ 0 ∷ 89
    ∷ 0 ∷ 0 ∷ 0 ∷ 0 ∷ 0 ∷ 5 ∷ 25 ∷ 25 ∷ 25 ∷ 25 ∷ 0 ∷ 0 ∷ 0 ∷ 0 ∷ 0 ∷ 0 ∷ 0 ∷ 0 ∷ 0 ∷ 0 ∷ 5 ∷ 0 ∷ 0
    ∷ 0 ∷ 0 ∷ 0 ∷ 0 ∷ 23 ∷ 23 ∷ 23 ∷ 23 ∷ 0 ∷ 0 ∷ 0 ∷ 0 ∷ 0 ∷ 0 ∷ 0 ∷ 0 ∷ 0 ∷ 0 ∷ 0 ∷ 0 ∷ 0 ∷ 0 ∷ 95
    ∷ 0 ∷ 0 ∷ 0 ∷ 0 ∷ 0 ∷ 5 ∷ 69 ∷ 69 ∷ 69 ∷ 69 ∷ 0 ∷ 5 ∷ 0 ∷ 0 ∷ 0 ∷ 0 ∷ 0 ∷ 0 ∷ 67 ∷ 67 ∷ 67 ∷ 67
    ∷ 0 ∷ 0 ∷ 0 ∷ 0 ∷ 0 ∷ 0 ∷ 0 ∷ 0 ∷ 0 ∷ 0 ∷ 0 ∷ 0 ∷ 0 ∷ 0 ∷ 0 ∷ 0 ∷ 0 ∷ 0 ∷ 0 ∷ 0 ∷ 0 ∷ 0 ∷ 0 ∷ 0
    ∷ 0 ∷ 0 ∷ 80 ∷ 0 ∷ 0 ∷ 0 ∷ 0 ∷ 0 ∷ 5 ∷ 13 ∷ 13 ∷ 13 ∷ 13 ∷ 0 ∷ 5 ∷ 0 ∷ 0 ∷ 0 ∷ 0 ∷ 0 ∷ 0 ∷ 11
    ∷ 11 ∷ 11 ∷ 11 ∷ 0 ∷ 0 ∷ 0 ∷ 0 ∷ 0 ∷ 0 ∷ 0 ∷ 0 ∷ 0 ∷ 0 ∷ 0 ∷ 0 ∷ 0 ∷ 0 ∷ 0 ∷ 0 ∷ 0 ∷ 0 ∷ 0 ∷ 0
    ∷ 0 ∷ 0 ∷ 83 ∷ 0 ∷ 0 ∷ 0 ∷ 0 ∷ 0 ∷ 5 ∷ 17 ∷ 17 ∷ 17 ∷ 17 ∷ 0 ∷ 5 ∷ 0 ∷ 0 ∷ 0 ∷ 0 ∷ 0 ∷ 0 ∷ 15
    ∷ 15 ∷ 15 ∷ 15 ∷ 0 ∷ 0 ∷ 0 ∷ 0 ∷ 0 ∷ 0 ∷ 0 ∷ 0 ∷ 0 ∷ 0 ∷ 0 ∷ 0 ∷ 0 ∷ 0 ∷ 0 ∷ 0 ∷ 0 ∷ 0 ∷ 0 ∷ 0
    ∷ 0 ∷ 0 ∷ 0 ∷ 0 ∷ 0 ∷ 0 ∷ 0 ∷ 0 ∷ 0 ∷ 0 ∷ 0 ∷ 0 ∷ 1 ∷ 71 ∷ 0 ∷ 0 ∷ 74 ∷ 0 ∷ 3 ∷ 0 ∷ 33 ∷ 33 ∷ 33
    ∷ 33 ∷ 3 ∷ 0 ∷ 0 ∷ 0 ∷ 0 ∷ 0 ∷ 0 ∷ 0 ∷ 31 ∷ 31 ∷ 31 ∷ 31 ∷ 0 ∷ 0 ∷ 0 ∷ 0 ∷ 0 ∷ 0 ∷ 0 ∷ 0 ∷ 0 ∷ 0
    ∷ 0 ∷ 0 ∷ 0 ∷ 0 ∷ 0 ∷ 0 ∷ 0 ∷ 1 ∷ 71 ∷ 0 ∷ 0 ∷ 74 ∷ 0 ∷ 3 ∷ 0 ∷ 55 ∷ 55 ∷ 55 ∷ 55 ∷ 3 ∷ 0 ∷ 0
    ∷ 0 ∷ 0 ∷ 0 ∷ 0 ∷ 0 ∷ 53 ∷ 53 ∷ 53 ∷ 53 ∷ 0 ∷ 0 ∷ 0 ∷ 0 ∷ 0 ∷ 0 ∷ 0 ∷ 0 ∷ 0 ∷ 0 ∷ 0 ∷ 0 ∷ 0 ∷ 0
    ∷ 0 ∷ 0 ∷ 0 ∷ 0 ∷ 0 ∷ 0 ∷ 0 ∷ 0 ∷ 0 ∷ 0 ∷ 0 ∷ 0 ∷ 0 ∷ 0 ∷ 1 ∷ 71 ∷ 0 ∷ 0 ∷ 74 ∷ 0 ∷ 3 ∷ 0 ∷ 59
    ∷ 59 ∷ 59 ∷ 59 ∷ 3 ∷ 0 ∷ 0 ∷ 0 ∷ 0 ∷ 0 ∷ 0 ∷ 0 ∷ 57 ∷ 57 ∷ 57 ∷ 57 ∷ 0 ∷ 0 ∷ 0 ∷ 0 ∷ 0 ∷ 0 ∷ 0
    ∷ 0 ∷ 0 ∷ 0 ∷ 0 ∷ 0 ∷ 0 ∷ 0 ∷ 77 ∷ 0 ∷ 0 ∷ 0 ∷ 0 ∷ 0 ∷ 5 ∷ 9 ∷ 9 ∷ 9 ∷ 9 ∷ 0 ∷ 5 ∷ 0 ∷ 0 ∷ 0 ∷ 0
    ∷ 0 ∷ 0 ∷ 7 ∷ 7 ∷ 7 ∷ 7 ∷ 0 ∷ 0 ∷ 0 ∷ 0 ∷ 0 ∷ 0 ∷ 0 ∷ 0 ∷ 0 ∷ 0 ∷ 0 ∷ 0 ∷ 0 ∷ 0 ∷ 0 ∷ 0 ∷ 92 ∷ 0
    ∷ 0 ∷ 0 ∷ 0 ∷ 0 ∷ 5 ∷ 37 ∷ 37 ∷ 37 ∷ 37 ∷ 0 ∷ 5 ∷ 0 ∷ 0 ∷ 0 ∷ 0 ∷ 0 ∷ 0 ∷ 35 ∷ 35 ∷ 35 ∷ 35 ∷ 0
    ∷ 0 ∷ 0 ∷ 0 ∷ 0 ∷ 0 ∷ 0 ∷ 0 ∷ 0 ∷ 0 ∷ 0 ∷ 0 ∷ 0 ∷ 0 ∷ 0 ∷ 0 ∷ 0 ∷ 0 ∷ 0 ∷ 0 ∷ 0 ∷ 0 ∷ 0 ∷ 0 ∷ 0
    ∷ 0 ∷ 0 ∷ 0 ∷ 0 ∷ 0 ∷ 0 ∷ 0 ∷ 0 ∷ 0 ∷ 0 ∷ 0 ∷ 0 ∷ 63 ∷ 63 ∷ 63 ∷ 63 ∷ 0 ∷ 0 ∷ 0 ∷ 0 ∷ 0 ∷ 0 ∷ 0
    ∷ 0 ∷ 0 ∷ 0 ∷ 0 ∷ 0 ∷ 0 ∷ 0 ∷ 0 ∷ 65 ∷ 65 ∷ 65 ∷ 65 ∷ 0 ∷ 0 ∷ 0 ∷ 0 ∷ 0 ∷ 0 ∷ 0 ∷ 61 ∷ 61 ∷ 61
    ∷ 61 ∷ 0 ∷ 0 ∷ 0 ∷ 0 ∷ 0 ∷ 0 ∷ 0 ∷ 0 ∷ 0 ∷ 0 ∷ 0 ∷ 0 ∷ 0 ∷ 0 ∷ 0 ∷ 0 ∷ 0 ∷ 0 ∷ 0 ∷ 0 ∷ 0 ∷ 0 ∷ 0
    ∷ 0 ∷ 0 ∷ 0 ∷ 0 ∷ 0 ∷ 0 ∷ 0 ∷ 0 ∷ 0 ∷ 0 ∷ 0 ∷ 0 ∷ 0 ∷ 1 ∷ 71 ∷ 0 ∷ 0 ∷ 74 ∷ 0 ∷ 3 ∷ 0 ∷ 29 ∷ 29
    ∷ 29 ∷ 29 ∷ 3 ∷ 0 ∷ 0 ∷ 0 ∷ 0 ∷ 0 ∷ 0 ∷ 0 ∷ 27 ∷ 27 ∷ 27 ∷ 27 ∷ 0 ∷ 0 ∷ 0 ∷ 0 ∷ 0 ∷ 0 ∷ 0 ∷ 0
    ∷ 0 ∷ 0 ∷ 0 ∷ 0 ∷ 0 ∷ 0 ∷ 0 ∷ 0 ∷ 0 ∷ 0 ∷ 0 ∷ 0 ∷ 0 ∷ 0 ∷ 0 ∷ 0 ∷ 0 ∷ 0 ∷ 0 ∷ 0 ∷ 0 ∷ 0 ∷ 0 ∷ 49
    ∷ 49 ∷ 49 ∷ 49 ∷ 0 ∷ 0 ∷ 0 ∷ 0 ∷ 0 ∷ 0 ∷ 0 ∷ 0 ∷ 0 ∷ 0 ∷ 0 ∷ 0 ∷ 51 ∷ 51 ∷ 51 ∷ 51 ∷ 0 ∷ 0 ∷ 0
    ∷ 0 ∷ 0 ∷ 0 ∷ 0 ∷ 47 ∷ 47 ∷ 47 ∷ 47 ∷ 0 ∷ 0 ∷ 0 ∷ 0 ∷ 0 ∷ 0 ∷ 0 ∷ 0 ∷ 0 ∷ 0 ∷ 0 ∷ 0 ∷ 0 ∷ 0 ∷ 0
    ∷ 0 ∷ 0 ∷ 1 ∷ 71 ∷ 0 ∷ 0 ∷ 74 ∷ 0 ∷ 3 ∷ 0 ∷ 41 ∷ 41 ∷ 41 ∷ 41 ∷ 3 ∷ 0 ∷ 0 ∷ 0 ∷ 0 ∷ 0 ∷ 0 ∷ 0
    ∷ 39 ∷ 39 ∷ 39 ∷ 39 ∷ 0 ∷ 0 ∷ 0 ∷ 0 ∷ 0 ∷ 0 ∷ 0 ∷ 0 ∷ 0 ∷ 0 ∷ 0 ∷ 0 ∷ 0 ∷ 0 ∷ 0 ∷ 0 ∷ 0 ∷ 0 ∷ 0
    ∷ 0 ∷ 0 ∷ 0 ∷ 1 ∷ 71 ∷ 0 ∷ 0 ∷ 74 ∷ 0 ∷ 3 ∷ 0 ∷ 45 ∷ 45 ∷ 45 ∷ 45 ∷ 3 ∷ 0 ∷ 0 ∷ 0 ∷ 0 ∷ 0 ∷ 0
    ∷ 0 ∷ 43 ∷ 43 ∷ 43 ∷ 43 ∷ 0 ∷ 0 ∷ 0 ∷ 0 ∷ 0 ∷ 0 ∷ 0 ∷ 0 ∷ 0 ∷ 0 ∷ 0 ∷ 0 ∷ 0 ∷ 0 ∷ 0 ∷ 0 ∷ 0 ∷ 0
    ∷ 0 ∷ 0 ∷ 86 ∷ 0 ∷ 0 ∷ 0 ∷ 0 ∷ 0 ∷ 5 ∷ 21 ∷ 21 ∷ 21 ∷ 21 ∷ 0 ∷ 5 ∷ 0 ∷ 0 ∷ 0 ∷ 0 ∷ 0 ∷ 0 ∷ 19
    ∷ 19 ∷ 19 ∷ 19 ∷ 0 ∷ 0 ∷ 0 ∷ 0 ∷ 0 ∷ []
